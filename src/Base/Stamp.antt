-- ===== src/Base/Stamp.antt =====
-- Times as the program stores them: texts that `toISOString` wrote, or texts that `Date.parse`
-- does not read. `timestamp` and the differences of state-store.ts live here, since several parts
-- order records by time.
use mathlib.Core.Bool.{Bool, true, false}
use mathlib.Core.Option.{Option, none, some}
use Prim.Native.Nat.{ℕ, compare, Ordering}
use Prim.Native.String.{String}
use deepseek_harness_relay_m.Base.Tests.{leb}

-- `iso n` is the text of the instant n milliseconds after the epoch.
pub data Stamp : Type 0 where
  iso : ℕ → Stamp
  other : String → Stamp

-- `Date.parse`; `none` is NaN.
abbrev pub date_parse : Stamp → Option ℕ
date_parse (iso n) = some n
date_parse (other s) = none

-- A JavaScript number that is a time or -∞.
pub data Instant : Type 0 where
  neg_infinity : Instant
  finite : ℕ → Instant

abbrev pub finite_or : Option ℕ → Instant
finite_or none = neg_infinity
finite_or (some n) = finite n

-- `timestamp`
unfoldable pub timestamp : Option Stamp → Instant
timestamp none = neg_infinity
timestamp (some s) = finite_or (date_parse s)

-- The sign of a difference of two numbers: `negative`, `same`, `positive`, or `nan`.
pub data Difference : Type 0 where
  negative same positive nan : Difference

abbrev sign : Ordering → Difference
sign Ordering.lt = negative
sign Ordering.eq = same
sign Ordering.gt = positive

abbrev pub difference : ℕ → ℕ → Difference
difference a b = sign (compare a b)

-- `a - b`: -∞ - (-∞) is NaN.
unfoldable pub instant_difference : Instant → Instant → Difference
instant_difference neg_infinity neg_infinity = nan
instant_difference neg_infinity (finite b) = negative
instant_difference (finite a) neg_infinity = positive
instant_difference (finite a) (finite b) = difference a b

-- `a >= b`
unfoldable pub instant_ge : Instant → Instant → Bool
instant_ge a neg_infinity = true
instant_ge neg_infinity (finite b) = false
instant_ge (finite a) (finite b) = leb b a

-- `if (d !== 0) return d > 0 ? left : right`, then `rest`. NaN differs from 0 and is not above it.
unfoldable pub prefer {ℓ} : {A : Type ℓ} → Difference → A → A → A → A
prefer negative left right rest = right
prefer same left right rest = rest
prefer positive left right rest = left
prefer nan left right rest = right
