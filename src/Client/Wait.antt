-- ===== src/Client/Wait.antt =====
-- client/transport.go: how long a client waits before it polls again.
use go_pkicmp_ng.Prelude.{
  ℕ, ◌+◌, ◌-◌, ◌*◌, ◌/◌, ◌%◌, ◌^◌, ◌≤◌, ◌<◌, ◌≡◌, ltb, leb, if◌then◌else◌, arith, Bool-cases, inl,
  inr,
}
use go_pkicmp_ng.Prelude.Int.{ℤ, pos, negsuc, ltb_ℤ, pos_part}
use go_pkicmp_ng.Client.Config.{Client}

abbrev pub second : ℕ
second = 1000000000

-- A number of nanoseconds as an int64, which wraps around.
unfoldable pub wrap_int64 : ℕ → ℤ
wrap_int64 n = let r = n % 2 ^ 64 in if ltb r (2 ^ 63) then pos r else negsuc (2 ^ 64 - 1 - r)

-- `time.Duration(seconds) * time.Second`, clamped: the wait as int64 is compared with both limits.
abbrev clamp : ℤ → ℕ → ℕ → ℕ
clamp (negsuc n) low high = low
clamp (pos w) low high = if ltb w low then low else if ltb high w then high else w

-- `clampCheckAfter`
unfoldable pub clamp_check_after : Client → ℤ → ℕ
unfolding wrap_int64
clamp_check_after c (negsuc n) = c.min_check_after
clamp_check_after c (pos seconds) =
    if leb seconds 0
    then c.min_check_after
    else if leb (c.max_check_after / second + 1) seconds
    then c.max_check_after
    else clamp (wrap_int64 (seconds * second)) c.min_check_after c.max_check_after

-- `WithCheckAfterLimits`
unfoldable pub with_check_after_limits : ℤ → ℤ → Client → Client
with_check_after_limits minimum maximum c =
    let low = if ltb_ℤ minimum (pos 0) then pos 0 else minimum in
    let high = if ltb_ℤ maximum low then low else maximum in
    record c { min_check_after = part low; max_check_after = part high }
  where
    part : ℤ → ℕ
    part (pos n) = n
    part (negsuc n) = 0

-- The limits that options can leave: in order, and of 63 bits.
pub record HasLimits (c : Client) : Type 0 where
  pub ordered : c.min_check_after ≤ c.max_check_after
  pub narrow : c.max_check_after < 2 ^ 63

-- The wait without overflow: the seconds asked for, brought into the limits.
abbrev pub exact_wait : Client → ℤ → ℕ
exact_wait c (negsuc n) = c.min_check_after
exact_wait c (pos seconds) =
    if ltb (seconds * second) c.min_check_after
    then c.min_check_after
    else if ltb c.max_check_after (seconds * second)
    then c.max_check_after
    else seconds * second

pub wrap_int64-narrow : (n : ℕ) → n < 2 ^ 63 → wrap_int64 n ≡ pos n
unfolding wrap_int64
wrap_int64-narrow n h =
    let small : n % 2 ^ 64 ≡ n = omega arith in rw (small, wrap_int64) (ground arith)

-- The division that guards the product keeps it within the limit.
guarded_product : (seconds limit : ℕ) → seconds < limit / second + 1 → seconds * second ≤ limit
guarded_product seconds limit h = omega arith

large_product : (seconds limit : ℕ) → limit / second + 1 ≤ seconds → limit < seconds * second
large_product seconds limit h = omega arith

-- The wait is the one without overflow, and lies within the limits.
pub clamp_check_after-exact :
    (c : Client) (seconds : ℤ)
    → HasLimits c
    → (clamp_check_after c seconds ≡ exact_wait c seconds)
      × (c.min_check_after ≤ clamp_check_after c seconds)
      × (clamp_check_after c seconds ≤ c.max_check_after)
unfolding clamp_check_after
clamp_check_after-exact c (negsuc n) l = ground (arith, l.ordered)
clamp_check_after-exact c (pos seconds) l =
    elim (Bool-cases (leb (c.max_check_after / second + 1) seconds)) [
      | inl large ↦
          ground (arith, l.ordered, large_product seconds c.max_check_after (ground arith))
      | inr small ↦
          let product : seconds * second ≤ c.max_check_after =
            guarded_product seconds c.max_check_after (ground arith) in
          ground (
            arith,
            l.ordered,
            product,
            wrap_int64-narrow (seconds * second) (omega (arith, l.narrow, product)),
          )
    ]

-- The option leaves limits in order, whatever it is given, and of 63 bits where its arguments are.
pub with_check_after_limits-HasLimits :
    (minimum maximum : ℤ) (c : Client)
    → pos_part minimum < 2 ^ 63
    → pos_part maximum < 2 ^ 63
    → HasLimits (with_check_after_limits minimum maximum c)
unfolding with_check_after_limits
with_check_after_limits-HasLimits minimum maximum c lo hi = record {
  ordered = ground arith;
  narrow = ground arith;
}
