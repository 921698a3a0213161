-- ===== src/Serialization/Streams.antt =====
-- `std::ostream` and `std::istream` as the code uses them: a write to a stream that is not good does nothing,
-- and a read that finds too few bytes makes the stream bad. A write can also fail, when the device behind
-- the stream takes no more than `room` bytes.
use mathlib.Core.Path.{fun_ext}
use gaspi_cxx.Common.{
  ℕ, ◌-◌, ◌≡◌, refl, ap, ◌∙◌, subst, List, [], ◌++◌, Bool, true, false, ◌&&◌, arith, length, take,
  drop, take-length-append, drop-length-append, length-append, append_assoc, append_nil, ◌>>=◌, leb,
  if◌then◌else◌, Result, ok, err, runtime_error,
}

pub record Ostream : Type 0 where
  pub written : List ℕ
  pub room : ℕ
  pub out_good : Bool

pub record Istream : Type 0 where
  pub unread : List ℕ
  pub in_good : Bool

unfoldable pub write : List ℕ → Ostream → Ostream
write bs out =
    if out.out_good && leb (length bs) out.room
    then record out { written = out.written ++ bs; room = out.room - length bs }
    else record out { out_good = false }

unfoldable pub read : ℕ → Istream → List ℕ × Istream
read n input =
    if input.in_good && leb n (length input.unread)
    then (take n input.unread, record input { unread = drop n input.unread })
    else (input.unread, record { unread = []; in_good = false })

-- `if (not out.good()) throw std::runtime_error`, and the same for `in`.
abbrev pub check_out : Ostream → Result Ostream
check_out out = if out.out_good then ok out else err runtime_error

abbrev pub check_in {ℓ} : {A : Type ℓ} → A → Istream → Result (A × Istream)
check_in a input = if input.in_good then ok (a, input) else err runtime_error

-- A stream that is good and has the bytes before it.
abbrev pub fed : List ℕ → List ℕ → Istream
fed bs rest = record { unread = bs ++ rest; in_good = true }

pub read-fed :
    (n : ℕ) (bs rest : List ℕ)
    → length bs ≡ n
    → read n (fed bs rest) ≡ (bs, record { unread = rest; in_good = true })
unfolding read
read-fed n bs rest h =
    let enough : leb n (length (bs ++ rest)) ≡ true = ground (arith, length-append bs rest) in
    let front : take n (bs ++ rest) ≡ bs =
      subst (λ k. take k (bs ++ rest) ≡ bs) h (take-length-append bs rest) in
    let back : drop n (bs ++ rest) ≡ rest =
      subst (λ k. drop k (bs ++ rest) ≡ rest) h (drop-length-append bs rest) in
    rw (enough, front, back) refl

pub write-write :
    (xs ys : List ℕ) (out : Ostream)
    → check_out (write ys (write xs out)) ≡ check_out (write (xs ++ ys) out)
unfolding write
write-write xs ys out = ground (arith, length-append xs ys, append_assoc out.written xs ys)

pub write_checked :
    (xs ys : List ℕ) (out : Ostream)
    → (check_out (write xs out) >>= λ o. check_out (write ys o)) ≡ check_out (write (xs ++ ys) out)
unfolding write
write_checked xs ys out = ground (arith, length-append xs ys, append_assoc out.written xs ys)

pub write_nil : (out : Ostream) → check_out (write [] out) ≡ check_out out
unfolding write
write_nil out = ground (arith, append_nil out.written)

pub fed-append : (xs ys rest : List ℕ) → fed (xs ++ ys) rest ≡ fed xs (ys ++ rest)
fed-append xs ys rest = ap (λ l. record { unread = l; in_good = true }) (append_assoc xs ys rest)

pub checked_twice : (out : Ostream) → (check_out out >>= check_out) ≡ check_out out
checked_twice out = ground arith

-- One write after another, where the first is checked.
pub then_write :
    (xs ys : List ℕ) (out : Ostream) (first : Result Ostream) (rest : Ostream → Result Ostream)
    → first ≡ check_out (write xs out)
    → ((o : Ostream) → rest o ≡ check_out (write ys o))
    → (first >>= rest) ≡ check_out (write (xs ++ ys) out)
then_write xs ys out first rest h h' =
    ap (λ r. r >>= rest) h
    ∙ ap (λ f. check_out (write xs out) >>= f) (fun_ext h')
    ∙ write_checked xs ys out

-- The same, with another check at the end.
pub then_checked :
    (xs : List ℕ) (out : Ostream) (last : Result Ostream)
    → last ≡ check_out (write xs out)
    → (last >>= check_out) ≡ check_out (write xs out)
then_checked xs out last h = ap (λ r. r >>= check_out) h ∙ checked_twice (write xs out)

regroup :
    (first : Result Ostream) (rest last : Ostream → Result Ostream)
    → (first >>= rest >>= last) ≡ (first >>= λ o. rest o >>= last)
regroup (ok out) rest last = refl
regroup (err thrown) rest last = refl

pub then_loop :
    (xs ys : List ℕ) (out : Ostream) (first : Result Ostream) (rest : Ostream → Result Ostream)
    → first ≡ check_out (write xs out)
    → ((o : Ostream) → (rest o >>= check_out) ≡ check_out (write ys o))
    → (first >>= rest >>= check_out) ≡ check_out (write (xs ++ ys) out)
then_loop xs ys out first rest h h' =
    regroup first rest check_out ∙ then_write xs ys out first (λ o. rest o >>= check_out) h h'
