-- ===== src/Daemon/Failures.antt =====
-- The configured buffer size and the tracked commands of cmd/amon/main.go.
use amon.Common.{
  ℕ, ℤ, pos, negsuc, zero, suc, ◌≤◌, ◌<◌, ◌≡◌, ◌⊎◌, inl, inr, ◌↔◌, Bool, true, false, List, [], ◌∷◌,
  none, some, Bool-cases, Bytes, if◌then◌else◌, length, get_elem?, lookup, insert, lookup-insert,
  str_eq, str_eq_iff, nat_key, bytes_key, get_elem?-append_length, arith,
}
use amon.Strings.{trim_right, trim_nul}
use amon.Types.{SyscallEvent, OpenatEvent, ExitEvent}
use amon.Wire.{decode, openat_fields}
use amon.Buffer.{push}
use amon.Registry.{
  ProcessRegistry, make_events, new_buffer, get_or_create, push_at, record_event, get,
}
use amon.Daemon.Handlers.{
  System, Daemon, get_event_threshold, openat_syscall, pushed, handle_openat_event, is_tracked,
  tracked_commands,
}

-- A threshold of 0, as from a file that does not give one, or below.
abbrev pub IsUnset : ℤ → Type 0
IsUnset (pos n) = n ≡ 0
IsUnset (negsuc n) = Unit

-- The first event of a process panics: `make` does at a negative size, and `Push` into no places.
record_event-unset :
    (r : ProcessRegistry) (pid ppid : ℕ) (comm : Bytes) (start : ℕ) (size : ℤ) (e : SyscallEvent)
    → IsUnset size
    → get r pid ≡ none
    → record_event r pid ppid comm start size e ≡ none
unfolding record_event get_or_create push_at push new_buffer make_events get
record_event-unset r pid ppid comm start (negsuc n) e unset new = rw (new, get_or_create)
record_event-unset r pid ppid comm start (pos (suc n)) e unset new = absurd (omega arith)
record_event-unset r pid ppid comm start (pos zero) e unset new =
    rw (new, get_or_create, get_elem?-append_length r.heap [])

-- With a buffer size of 0 or below, which a configuration without `events_threshold` gives, an
-- openat event of a process that has no buffer makes the handler panic.
pub handle_openat_event-unset :
    (sys : System) (sample : Bytes) (d : Daemon) (e : OpenatEvent)
    → IsUnset (get_event_threshold sys)
    → decode openat_fields sample ≡ some e
    → get d.registry e.tgid ≡ none
    → handle_openat_event sys sample d ≡ none
unfolding handle_openat_event pushed
handle_openat_event-unset sys sample d e unset read new =
    let stopped =
      record_event-unset d.registry e.tgid 0 (trim_nul e.comm) e.timestamp_ns
        (get_event_threshold sys) (openat_syscall e) unset new in
    rw (read, handle_openat_event, stopped)

abbrev pub IsOneOf : Bytes → List Bytes → Type 0
IsOneOf comm [] = ⊥
IsOneOf comm (cmd ∷ cmds) = (cmd ≡ comm) ⊎ IsOneOf comm cmds

is_tracked-insert :
    (cmd comm : Bytes) (m : List (Bytes × Bool))
    → is_tracked (insert cmd true m) comm ≡ (if str_eq cmd comm then true else is_tracked m comm)
unfolding is_tracked
is_tracked-insert cmd comm m = ground (arith, lookup-insert cmd comm true m)

is_tracked-tracked_commands :
    (cmds : List Bytes) (m : List (Bytes × Bool)) (comm : Bytes)
    → (is_tracked (tracked_commands cmds m) comm ≡ true)
      ↔ (IsOneOf comm cmds ⊎ (is_tracked m comm ≡ true))
unfolding tracked_commands
is_tracked-tracked_commands [] m comm = (λ h. inr h, λ h. ground arith)
is_tracked-tracked_commands (cmd ∷ cmds) m comm =
    let ih = is_tracked-tracked_commands cmds (insert cmd true m) comm in
    let added = is_tracked-insert cmd comm m in
    let same = str_eq_iff cmd comm in
    (
      λ h. elim (ih.0 h) [
        | inl later ↦ inl (inr later)
        | inr now ↦ elim (Bool-cases (str_eq cmd comm)) [
          | inl b ↦ inl (inl (same.0 b))
          | inr b ↦ inr (ground arith)
        ]
      ],
      λ h. elim h [
        | inl (inl here) ↦ ih.1 (inr (let b = same.1 here in ground arith))
        | inl (inr later) ↦ ih.1 (inl later)
        | inr old ↦ ih.1 (inr (ground arith))
      ],
    )

-- A name is tracked exactly if it is one of the configured commands.
pub is_tracked_iff :
    (cmds : List Bytes) (comm : Bytes)
    → (is_tracked (tracked_commands cmds []) comm ≡ true) ↔ IsOneOf comm cmds
unfolding is_tracked lookup
is_tracked_iff cmds comm =
    let all = is_tracked-tracked_commands cmds [] comm in
    (
      λ h. elim (all.0 h) [ inl found ↦ found | inr other ↦ absurd (ground arith) ],
      λ h. all.1 (inl h),
    )

trim_right-length-le : (c : ℕ) (s : Bytes) → length (trim_right c s) ≤ length s
unfolding trim_right
trim_right-length-le c [] = omega arith
trim_right-length-le c (b ∷ s) = ground (arith, trim_right-length-le c s)

-- A last byte that is cut off shortens the text.
trim_right-length-lt :
    (c : ℕ) (s : Bytes) (n : ℕ)
    → length s ≡ suc n
    → get_elem? s n ≡ some c
    → length (trim_right c s) ≤ n
unfolding trim_right
trim_right-length-lt c [] n len last = absurd (omega arith)
trim_right-length-lt c (b ∷ []) zero len last = ground arith
trim_right-length-lt c (b ∷ s) (suc n) len last = ground (arith, trim_right-length-lt c s n)
trim_right-length-lt c (b ∷ d ∷ s) zero len last = absurd (omega arith)

-- If every configured command has more than 15 bytes, no process is tracked by the 16 bytes of its
-- name, which end with a zero.
pub is_tracked-long :
    (cmds : List Bytes) (e : ExitEvent)
    → ((cmd : Bytes) → IsOneOf cmd cmds → 15 < length cmd)
    → length e.comm ≡ 16
    → get_elem? e.comm 15 ≡ some 0
    → is_tracked (tracked_commands cmds []) (trim_nul e.comm) ≡ false
unfolding trim_nul
is_tracked-long cmds e long len last =
    elim (Bool-cases (is_tracked (tracked_commands cmds []) (trim_right 0 e.comm))) [
      | inr no_match ↦ no_match
      | inl match ↦ absurd (
          omega (
            arith,
            long (trim_right 0 e.comm) ((is_tracked_iff cmds (trim_right 0 e.comm)).0 match),
            trim_right-length-lt 0 e.comm 15 len last,
          ))
    ]
