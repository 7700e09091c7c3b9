-- ===== src/Daemon/Reports.antt =====
-- Which crashes the loop of cmd/amon/main.go reports.
pub mod Crashes
pub mod Live
pub mod Context
pub mod Rounds
pub mod Sources
use amon.Common.{
  ℕ, ◌+◌, ◌≡◌, ◌⊎◌, inl, inr, Bool, true, List, [], ◌∷◌, ◌++◌, Option, none, some, Bytes, nat_key,
  ◌>>=◌,
}
use amon.Strings.{trim_nul}
use amon.Types.{ExitEvent}
use amon.Wire.{decode, exit_fields}
use amon.Wire.Fields.{read_uint}
use amon.Daemon.Names.{is_crash}
use amon.Daemon.Handlers.{System, Daemon, Action, is_tracked}

abbrev pub IsIn : Action → List Action → Type 0
IsIn a [] = ⊥
IsIn a (x ∷ xs) = (a ≡ x) ⊎ IsIn a xs

-- A sample of a tracked process that was killed by a signal that is a crash.
pub record IsCrashOf (tracked : List (Bytes × Bool)) (e : ExitEvent) (sample : Bytes) : Type 0 where
  pub type : decode (read_uint 4) sample ≡ some 2
  pub fields : decode exit_fields sample ≡ some e
  pub crash : is_crash e ≡ true
  pub named : is_tracked tracked (trim_nul e.comm) ≡ true

-- Some sample is such a crash of the process.
abbrev pub HasCrash : List (Bytes × Bool) → ℕ → List (System × Bytes) → Type 0
HasCrash tracked pid [] = ⊥
HasCrash tracked pid ((sys, sample) ∷ samples) =
    ((e : ExitEvent) × IsCrashOf tracked e sample × (e.tgid ≡ pid)) ⊎ HasCrash tracked pid samples

IsIn-append : (a : Action) (xs ys : List Action) → IsIn a (xs ++ ys) → IsIn a xs ⊎ IsIn a ys
IsIn-append a [] ys h = inr h
IsIn-append a (x ∷ xs) ys (inl e) = inl (inl e)
IsIn-append a (x ∷ xs) ys (inr h) = elim (IsIn-append a xs ys h) [
  | inl l ↦ inl (inr l)
  | inr r ↦ inr r
]

pub IsIn-left : (a : Action) (xs ys : List Action) → IsIn a xs → IsIn a (xs ++ ys)
IsIn-left a [] ys h = absurd h
IsIn-left a (x ∷ xs) ys (inl e) = inl e
IsIn-left a (x ∷ xs) ys (inr h) = inr (IsIn-left a xs ys h)

pub IsIn-right : (a : Action) (xs ys : List Action) → IsIn a ys → IsIn a (xs ++ ys)
IsIn-right a [] ys h = h
IsIn-right a (x ∷ xs) ys h = inr (IsIn-right a xs ys h)

-- The actions of a step.
abbrev pub Acts : Option (Daemon × List Action) → (List Action → Type 0) → Type 0
Acts none P = Unit
Acts (some (d, actions)) P = P actions

pub Acts-weaken :
    (result : Option (Daemon × List Action)) {P Q : List Action → Type 0}
    → Acts result P
    → ((actions : List Action) → P actions → Q actions)
    → Acts result Q
Acts-weaken none h f = tt
Acts-weaken (some (d, actions)) h f = f actions h
