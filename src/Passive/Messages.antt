-- ===== src/Passive/Messages.antt =====
-- The messages of src/passive/Passive.cpp: `sendPassive` and `recvPassive`. Memory that the segment's allocator
-- gives is an address.
use gaspi_cxx.Common.{
  ℕ, ◌+◌, ◌*◌, ◌≡◌, refl, sym, ap, subst, ◌∙◌, List, ◌++◌, length, length-append, arith,
}
use gaspi_cxx.Serialization.Memory.{
  Memory, store, load, Holds-store, Holds-left, Holds-right, store-append,
}
use gaspi_cxx.Serialization.Scalar.{Object, Representable}

-- `enum MSG_TAG_t`
abbrev pub finish_tag : ℕ
finish_tag = 2

abbrev pub rtbd_tag : ℕ
rtbd_tag = 5

module _ (int_object : Object ℕ) where
  -- What `gaspi_passive_send` sends: `size` bytes from `g_ptr` on, with the tag and the size of the message
  -- in front of it.
  unfoldable pub send_passive : ℕ → List ℕ → ℕ → Memory → List ℕ
  unfolding load store
  send_passive msg_tag message g_ptr m =
      let src_size = length message in
      let size = src_size + 2 * int_object.sizeof in
      let m = store g_ptr (int_object.to_bytes msg_tag) m in
      let m = store (g_ptr + int_object.sizeof) (int_object.to_bytes src_size) m in
      let m = store (g_ptr + 2 * int_object.sizeof) message m in load g_ptr size m

  -- The tag, the size and the data of what `gaspi_passive_receive` has put at `g_ptr`.
  unfoldable pub recv_passive : List ℕ → ℕ → Memory → ℕ × ℕ × List ℕ
  unfolding load store
  recv_passive received g_ptr m =
      let m = store g_ptr received m in
      let msg_tag = int_object.from_bytes (load g_ptr int_object.sizeof m) in
      let size = int_object.from_bytes (load (g_ptr + int_object.sizeof) int_object.sizeof m) in
      (msg_tag, size, load (g_ptr + 2 * int_object.sizeof) size m)

  module _ {Valid : ℕ → Type 0} (law : Representable int_object Valid) where
    send_passive_lem :
        (msg_tag : ℕ) (message : List ℕ) (g_ptr : ℕ) (m : Memory)
        → Valid msg_tag
        → Valid (length message)
        → send_passive msg_tag message g_ptr m
          ≡ int_object.to_bytes msg_tag ++ (int_object.to_bytes (length message) ++ message)
    unfolding send_passive
    send_passive_lem msg_tag message g_ptr m vt vl =
        let bt = int_object.to_bytes msg_tag in
        let bl = int_object.to_bytes (length message) in
        let m1 = store g_ptr bt m in
        let m2 = store (g_ptr + length bt) bl m1 in
        let whole = Holds-store g_ptr (bt ++ (bl ++ message)) m in
        let size : length message + 2 * int_object.sizeof ≡ length (bt ++ (bl ++ message)) = omega (
          arith,
          law.to_size msg_tag vt,
          law.to_size (length message) vl,
          length-append bt (bl ++ message),
          length-append bl message,
        ) in
        let at_length : g_ptr + int_object.sizeof ≡ g_ptr + length bt =
          omega (arith, law.to_size msg_tag vt) in
        let at_message : g_ptr + 2 * int_object.sizeof ≡ g_ptr + length bt + length bl =
          omega (arith, law.to_size msg_tag vt, law.to_size (length message) vl) in
        let stored : store (g_ptr + 2 * int_object.sizeof) message
              (store (g_ptr + int_object.sizeof) bl m1)
            ≡ store g_ptr (bt ++ (bl ++ message)) m =
          ap (λ p. store (g_ptr + 2 * int_object.sizeof) message (store p bl m1)) at_length
          ∙ ap (λ p. store p message m2) at_message
          ∙ sym (
              store-append g_ptr bt (bl ++ message) m
              ∙ store-append (g_ptr + length bt) bl message m1) in
        rw (stored, size) whole

    -- A message is received as it was sent, with its tag and its size, wherever the two sides have their
    -- buffers; for tags and sizes that `int` represents.
    pub recv_passive-send_passive :
        (msg_tag : ℕ) (message : List ℕ) (g_ptr g_ptr' : ℕ) (m m' : Memory)
        → Valid msg_tag
        → Valid (length message)
        → recv_passive (send_passive msg_tag message g_ptr m) g_ptr' m'
          ≡ (msg_tag, length message, message)
    unfolding recv_passive
    recv_passive-send_passive msg_tag message g_ptr g_ptr' m m' vt vl =
        let bt = int_object.to_bytes msg_tag in
        let bl = int_object.to_bytes (length message) in
        let m1 = store g_ptr' (bt ++ (bl ++ message)) m' in
        let whole = Holds-store g_ptr' (bt ++ (bl ++ message)) m' in
        let behind = Holds-right m1 g_ptr' bt (bl ++ message) whole in
        let tag : load g_ptr' int_object.sizeof m1 ≡ bt =
          subst (λ n. load g_ptr' n m1 ≡ bt) (law.to_size msg_tag vt)
            (Holds-left m1 g_ptr' bt (bl ++ message) whole) in
        let place = ap (λ n. g_ptr' + n) (law.to_size msg_tag vt) in
        let size : load (g_ptr' + int_object.sizeof) int_object.sizeof m1 ≡ bl =
          subst (λ p. load p int_object.sizeof m1 ≡ bl) place
            (subst (λ n. load (g_ptr' + length bt) n m1 ≡ bl) (law.to_size (length message) vl)
              (Holds-left m1 (g_ptr' + length bt) bl message behind)) in
        let at_message : g_ptr' + length bt + length bl ≡ g_ptr' + 2 * int_object.sizeof =
          omega (arith, law.to_size msg_tag vt, law.to_size (length message) vl) in
        let text : load (g_ptr' + 2 * int_object.sizeof) (length message) m1 ≡ message =
          subst (λ p. load p (length message) m1 ≡ message) at_message
            (Holds-right m1 (g_ptr' + length bt) bl message behind) in
        rw
          (
            send_passive_lem msg_tag message g_ptr m vt vl,
            tag,
            law.back msg_tag vt,
            size,
            law.back (length message) vl,
            text,
          )
          refl
