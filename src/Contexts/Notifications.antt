-- ===== src/Contexts/Notifications.antt =====
-- src/CommunicationContext.cpp: what all contexts share. `writePart` is virtual, here an argument.
use gaspi_cxx.Common.{
  ℕ, ◌≡◌, ◌≢◌, runtime_error, ℕ_discrete, ◌∙◌, Bool, true, false, not, ◌==◌, Result, ok, err, arith,
}
use gaspi_cxx.Contexts.Gaspi.{
  BufferDescription, gaspi_success, gaspi_timeout, gaspi_queue_full, gaspi_error, Gaspi, check,
}

-- `write`: the whole source
abbrev pub write :
    {R : Type 0}
    → (BufferDescription → BufferDescription → ℕ → ℕ → R)
    → BufferDescription
    → BufferDescription
    → R
write write_part source target = write_part source target source.size 0

module _ {G : Type 0} (gaspi : Gaspi G) where
  -- The reset of the notification that came, and whether its value was not 0.
  unfoldable pub reset_came : ℕ → ℕ → G → Result Bool × G
  reset_came segment id g =
      let (ret, value, g') = gaspi.notify_reset segment id g in
      elim (check ret) [ err thrown ↦ (err thrown, g') | ok _ ↦ (ok (not (value == 0)), g') ]

  unfoldable pub check_for_buffer_notification : BufferDescription → G → Result Bool × G
  unfolding reset_came
  check_for_buffer_notification target g =
      let (ret, id, g') = gaspi.notify_waitsome false target.segment_id target.notification_id g in
      elim ret [
        | gaspi_timeout ↦ (ok false, g')
        | gaspi_success ↦ reset_came target.segment_id id g'
        | gaspi_queue_full ↦ (err runtime_error, g')
        | gaspi_error ↦ (err runtime_error, g')
      ]

  unfoldable pub wait_for_buffer_notification : BufferDescription → G → Result Bool × G
  unfolding reset_came
  wait_for_buffer_notification target g =
      let (ret, id, g') = gaspi.notify_waitsome true target.segment_id target.notification_id g in
      elim (check ret) [ err thrown ↦ (err thrown, g') | ok _ ↦ reset_came target.segment_id id g' ]

-- What the standard says of a notification of a segment, where no call fails: it has a value, a test finds it
-- when the value is not 0, and a reset gives the value and sets it to 0.
pub record Flags {G : Type 0} (gaspi : Gaspi G) (value : ℕ → ℕ → G → ℕ) : Type 0 where
  pub found :
      (s i : ℕ) (g : G)
      → value s i g ≢ 0
      → gaspi.notify_waitsome false s i g ≡ (gaspi_success, i, g)
  pub not_found :
      (s i : ℕ) (g : G)
      → value s i g ≡ 0
      → ((gaspi.notify_waitsome false s i g).0 ≡ gaspi_timeout)
        × ((gaspi.notify_waitsome false s i g).2 ≡ g)
  pub reset :
      (s i : ℕ) (g : G)
      → ((gaspi.notify_reset s i g).0 ≡ gaspi_success)
        × ((gaspi.notify_reset s i g).1 ≡ value s i g)
        × (value s i (gaspi.notify_reset s i g).2 ≡ 0)

module _ {G : Type 0} (gaspi : Gaspi G) (value : ℕ → ℕ → G → ℕ) (flags : Flags gaspi value)
    (target : BufferDescription) where
  check_lem :
      (g : G)
      → let (seen, g') = check_for_buffer_notification gaspi target g in
        (seen ≡ ok (not (value target.segment_id target.notification_id g == 0)))
        × (value target.segment_id target.notification_id g' ≡ 0)
  unfolding check_for_buffer_notification reset_came
  check_lem g =
      let s = target.segment_id in
      let i = target.notification_id in
      elim (ℕ_discrete (value s i g) 0) [
        | yes unset ↦
            let (late, same) = flags.not_found s i g unset in
            let test : (value s i g == 0) ≡ true = ground arith in
            (ground (arith, late, test), ground (arith, late, same, unset))
        | no set ↦
            let came = flags.found s i g set in
            let (done, old, zeroed) = flags.reset s i g in
            let test : (value s i g == 0) ≡ false = ground arith in
            (ground (arith, came, done, old, test), ground (arith, came, done, old, zeroed))
      ]

  -- When no call of GASPI fails, a check tells whether the notification of the buffer is set, and leaves it
  -- unset: of two checks without a new notification in between, the second fails.
  pub check_resets :
      (g : G)
      → let (seen, g') = check_for_buffer_notification gaspi target g in
        (seen ≡ ok (not (value target.segment_id target.notification_id g == 0)))
        × ((check_for_buffer_notification gaspi target g').0 ≡ ok false)
  check_resets g =
      let (seen, unset) = check_lem g in
      let g' = (check_for_buffer_notification gaspi target g).1 in
      let (again, _) = check_lem g' in (seen, again ∙ ground (arith, unset))
