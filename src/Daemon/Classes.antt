-- ===== src/Daemon/Classes.antt =====
-- crates/workflowd/src/scheduler/classes.rs: how much work of each class may run at once.
pub mod Laws
use google_antigravity_cycle.Prelude.{
  ℕ, zero, suc, ◌+◌, ◌-◌, ◌≡◌, ◌↔◌, refl, Bool, true, false, ◌&&◌, Option, none, some, List, [],
  ◌∷◌, ◌==◌, leb, if◌then◌else◌, arith, is_some,
}
use google_antigravity_cycle.Prelude.Int.{ℤ, ltb_ℤ}
use google_antigravity_cycle.Prelude.Text.{Text, text_eq, text_eq_iff}
use google_antigravity_cycle.Prelude.Maps.{Eq, get, insert, text_equality}

pub data WorkClass : Type 0 where
  remote_model : Text → WorkClass
  local_model build browser database indexing : WorkClass

unfoldable pub class_eq : WorkClass → WorkClass → Bool
class_eq (remote_model p) (remote_model q) = text_eq p q
class_eq local_model local_model = true
class_eq build build = true
class_eq browser browser = true
class_eq database database = true
class_eq indexing indexing = true
class_eq _ _ = false

pub class_eq_iff : (a b : WorkClass) → (class_eq a b ≡ true) ↔ (a ≡ b)
unfolding class_eq
class_eq_iff (remote_model p) (remote_model q) = ground (arith, text_eq_iff p q)
class_eq_iff a b = ground arith

instance abbrev pub class_equality : Eq WorkClass
class_equality = record { beq = class_eq; beq_iff = class_eq_iff }

pub data CapacityDecision : Type 0 where
  admitted at_capacity provider_backoff unconfigured : CapacityDecision

pub record CapacityLimiter : Type 0 where
  -- `u16` each
  pub active : List (WorkClass × ℕ)
  -- the time until which a provider is left alone
  pub backoff_until : List (Text × ℤ)
  pub limits : List (WorkClass × ℕ)

unfoldable pub new : List (WorkClass × ℕ) → CapacityLimiter
new limits = record { active = []; backoff_until = []; limits = limits }

-- The guard of the first `if` of `try_admit`.
backs_off : CapacityLimiter → WorkClass → ℤ → Bool
backs_off l (remote_model provider) now = elim (get provider l.backoff_until) [
  | none ↦ false
  | some until ↦ ltb_ℤ now until
]
backs_off l _ now = false

-- `entry(class).or_default()`
abbrev pub or_default : Option ℕ → ℕ
or_default none = 0
or_default (some n) = n

unfoldable pub try_admit : WorkClass → ℤ → CapacityLimiter → CapacityDecision × CapacityLimiter
unfolding backs_off
try_admit class now_unix_millis l =
    if backs_off l class now_unix_millis then (provider_backoff, l) else elim (get class l.limits) [
      | none ↦ (unconfigured, l)
      | some limit ↦
          let active = or_default (get class l.active) in
          if leb limit active
          then (at_capacity, record l { active = insert class active l.active })
          else (admitted, record l { active = insert class (active + 1) l.active })
    ]

unfoldable pub release : WorkClass → CapacityLimiter → Bool × CapacityLimiter
release class l = elim (get class l.active) [
  | none ↦ (false, l)
  | some zero ↦ (false, l)
  | some (suc n) ↦ (true, record l { active = insert class n l.active })
]

unfoldable pub backoff_provider : Text → ℤ → CapacityLimiter → CapacityLimiter
backoff_provider provider until_unix_millis l = record l {
  backoff_until = insert provider until_unix_millis l.backoff_until;
}
