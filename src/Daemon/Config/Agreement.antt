-- ===== src/Daemon/Config/Agreement.antt =====
-- The keys that `loadConfig` of cmd/amon/main.go puts into the kernel maps, and the names that
-- `handleExitEvent` looks up.
use amon.Common.{
  ℕ, zero, suc, ◌+◌, ◌-◌, ◌≤◌, ◌≡◌, refl, sym, ap, ◌∙◌, ◌⊎◌, inl, inr, ◌↔◌, Bool, true, List, [],
  ◌∷◌, ◌++◌, some, Option-cases, Bool-cases, Bytes, length, take, replicate, ◌==◌, str_eq,
  str_eq_iff, lookup, insert, lookup-insert, bytes_key, length-append, length-replicate, arith,
}
use amon.Strings.{cons_trimmed, trim_right, trim_nul}
use amon.Types.{Config}
use amon.Daemon.Handlers.{is_tracked, tracked_commands}
use amon.Daemon.Failures.{IsOneOf, is_tracked_iff}
use amon.Daemon.Config.{CommandMaps, key_of, put_all, load_config}

-- Commands of at most 16 bytes that do not end with a zero.
abbrev pub AllFit : List Bytes → Type 0
AllFit [] = Unit
AllFit (cmd ∷ cmds) = (length cmd ≤ 16) × (trim_nul cmd ≡ cmd) × AllFit cmds

take-replicate : (n m : ℕ) → n ≤ m → take n (replicate {A = ℕ} m 0) ≡ replicate n 0
take-replicate zero m h = refl
take-replicate (suc n) zero h = absurd (omega arith)
take-replicate (suc n) (suc m) h = ap (◌∷◌ 0) (take-replicate n m (omega arith))

take-pad :
    (n m : ℕ) (s : Bytes)
    → length s ≤ n
    → n ≤ length s + m
    → take n (s ++ replicate m 0) ≡ s ++ replicate (n - length s) 0
take-pad n m [] h k =
    let same : n - 0 ≡ n = omega arith in rw same (take-replicate n m (omega arith))
take-pad zero m (b ∷ s) h k = absurd (omega arith)
take-pad (suc n) m (b ∷ s) h k =
    let same : suc n - suc (length s) ≡ n - length s = omega arith in
    rw same (ap (◌∷◌ b) (take-pad n m s (omega arith) (omega arith)))

trim_right-replicate : (k : ℕ) → trim_right 0 (replicate k 0) ≡ []
unfolding trim_right
trim_right-replicate zero = refl
trim_right-replicate (suc k) = rw (trim_right-replicate k) refl

trim_right-pad : (s : Bytes) (k : ℕ) → trim_right 0 (s ++ replicate k 0) ≡ trim_right 0 s
unfolding trim_right
trim_right-pad [] k = trim_right-replicate k
trim_right-pad (b ∷ s) k = ap (cons_trimmed 0 b) (trim_right-pad s k)

-- What is trimmed is zeros.
cons_trimmed-whole :
    (b : ℕ) (s t : Bytes) (k : ℕ)
    → s ≡ t ++ replicate k 0
    → (j : ℕ) × (b ∷ s ≡ cons_trimmed 0 b t ++ replicate j 0)
unfolding cons_trimmed
cons_trimmed-whole b s (d ∷ t) k e = (k, ap (◌∷◌ b) e)
cons_trimmed-whole b s [] k e = elim (Bool-cases (b == 0)) [
  | inl c ↦ let at : b ≡ 0 = ground arith in (suc k, rw (c, at, e) refl)
  | inr c ↦ (k, rw (c, e) refl)
]

trim_right-whole : (s : Bytes) → (k : ℕ) × (s ≡ trim_right 0 s ++ replicate k 0)
unfolding trim_right
trim_right-whole [] = (0, refl)
trim_right-whole (b ∷ s) =
    let (k, e) = trim_right-whole s in cons_trimmed-whole b s (trim_right 0 s) k e

key_of-pad : (cmd : Bytes) → length cmd ≤ 16 → key_of cmd ≡ cmd ++ replicate (16 - length cmd) 0
unfolding key_of
key_of-pad cmd short = take-pad 16 16 cmd short (omega arith)

-- The key of a command is the kernel's name of a process exactly if that name, trimmed, is the command.
key_of_iff :
    (cmd comm : Bytes)
    → length cmd ≤ 16
    → trim_nul cmd ≡ cmd
    → length comm ≡ 16
    → (key_of cmd ≡ comm) ↔ (cmd ≡ trim_nul comm)
unfolding trim_nul
key_of_iff cmd comm short clean len =
    let pad = key_of-pad cmd short in
    let (k, whole) = trim_right-whole comm in
    (
      λ same.
          sym (ap (trim_right 0) (sym same ∙ pad) ∙ trim_right-pad cmd (16 - length cmd) ∙ clean),
      λ same. pad ∙ filled k (rw (← same) at whole),
    )
  where
    filled : (k : ℕ) → comm ≡ cmd ++ replicate k 0 → cmd ++ replicate (16 - length cmd) 0 ≡ comm
    filled k whole =
        let total : length comm ≡ length cmd + k =
          ap length whole
          ∙ length-append cmd (replicate k 0)
          ∙ ap (λ n. length cmd + n) (length-replicate k 0) in
        let left : 16 - length cmd ≡ k = omega arith in rw left (sym whole)

-- What is in a map after the keys of some commands were put into it.
put_all_lem :
    (accepts : Bytes → Bool) (cmds : List Bytes) (m m' : List (Bytes × ℕ)) (comm : Bytes)
    → put_all accepts cmds m ≡ some m'
    → AllFit cmds
    → length comm ≡ 16
    → (lookup comm m' ≡ some 1) ↔ (IsOneOf (trim_nul comm) cmds ⊎ (lookup comm m ≡ some 1))
unfolding put_all
put_all_lem accepts [] m m' comm done fit len =
    let same : m ≡ m' = cc done in
    (λ h. inr (rw same h), λ h. elim h [ inl found ↦ absurd found | inr old ↦ rw (← same) old ])
put_all_lem accepts (cmd ∷ cmds) m m' comm done fit len = elim (Bool-cases (accepts (key_of cmd))) [
  | inr refused ↦ absurd (ground arith)
  | inl taken ↦
      let ih =
        put_all_lem accepts cmds (insert (key_of cmd) 1 m) m' comm (rw taken at done) fit.2 len in
      let at = lookup-insert (key_of cmd) comm 1 m in
      let key = key_of_iff cmd comm fit.0 fit.1 len in
      let eq = str_eq_iff (key_of cmd) comm in
      elim (Bool-cases (str_eq (key_of cmd) comm)) [
        | inl c ↦ (λ h. inl (inl (key.0 (eq.0 c))), λ h. ih.1 (inr (at ∙ (rw c refl))))
        | inr c ↦ (
          λ h. elim (ih.0 h) [ inl found ↦ inl (inr found) | inr old ↦ inr (rw (at, c) at old) ],
          λ h. elim h [
            | inl (inl same) ↦ let hit = eq.1 (key.1 same) in absurd (ground arith)
            | inl (inr found) ↦ ih.1 (inl found)
            | inr old ↦ ih.1 (inr (at ∙ (rw c old)))
          ],
        )
      ]
]

put_all-empty :
    (accepts : Bytes → Bool) (cmds : List Bytes) (m : List (Bytes × ℕ)) (comm : Bytes)
    → put_all accepts cmds [] ≡ some m
    → AllFit cmds
    → length comm ≡ 16
    → (lookup comm m ≡ some 1) ↔ IsOneOf (trim_nul comm) cmds
unfolding lookup
put_all-empty accepts cmds m comm done fit len =
    let all = put_all_lem accepts cmds [] m comm done fit len in
    (
      λ h. elim (all.0 h) [ inl found ↦ found | inr old ↦ absurd (ground arith) ],
      λ h. all.1 (inl h),
    )

-- Where the keys of all commands could be put into kernel maps that were empty, and the commands
-- have at most 16 bytes and no zero at their end, a name of 16 bytes is a key of the map of allowed
-- commands exactly if the daemon tracks the trimmed name, and a key of the map of ignored commands
-- exactly if the trimmed name is an ignored command.
pub load_config-is_tracked :
    (accepts_allowed accepts_ignored : Bytes → Bool) (cfg : Config) (maps : CommandMaps)
    (comm : Bytes)
    → load_config accepts_allowed accepts_ignored cfg (record { allowed = []; ignored = [] })
      ≡ some maps
    → AllFit cfg.tracked_commands
    → AllFit cfg.ignored_commands
    → length comm ≡ 16
    → ((lookup comm maps.allowed ≡ some 1)
        ↔ (is_tracked (tracked_commands cfg.tracked_commands []) (trim_nul comm) ≡ true))
      × ((lookup comm maps.ignored ≡ some 1) ↔ IsOneOf (trim_nul comm) cfg.ignored_commands)
unfolding load_config
load_config-is_tracked accepts_allowed accepts_ignored cfg maps comm done tracked_fit ignored_fit
      len =
    elim (Option-cases (put_all accepts_allowed cfg.tracked_commands [])) [
      | inl refused ↦ absurd (ground arith)
      | inr (allowed, first) ↦
          elim (Option-cases (put_all accepts_ignored cfg.ignored_commands [])) [
            | inl refused ↦ absurd (ground arith)
            | inr (ignored, second) ↦
                let made : maps ≡ record { allowed = allowed; ignored = ignored } = ground arith in
                let tracked =
                  put_all-empty accepts_allowed cfg.tracked_commands allowed comm first tracked_fit
                    len in
                let known = is_tracked_iff cfg.tracked_commands (trim_nul comm) in
                rw made (
                  (λ h. known.1 (tracked.0 h), λ h. tracked.1 (known.0 h)),
                  put_all-empty accepts_ignored cfg.ignored_commands ignored comm second ignored_fit
                      len,
                )
          ]
    ]
