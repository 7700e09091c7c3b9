-- ===== src/Report/Network.antt =====
-- The network summary of `writeTxtReport` in internal/reports/reports.go. Go visits a map in an order of
-- its own, which `order` stands for.
pub mod Layout
pub mod Summary
use amon.Common.{
  ℕ, ℤ, neg, ◌+◌, Bool, not, ◌&&◌, List, [], ◌∷◌, ◌++◌, none, some, Bytes, bytes, str_eq, is_neg,
  ltb, ◌==ℤ◌, if◌then◌else◌, insert, bytes_key, map,
}
use amon.Strings.{dec, pad_right, concat}
use amon.Types.{SyscallEvent, NetworkData}

-- `isError` of the reports, with `-115` for `-EINPROGRESS`.
unfoldable pub is_failure : SyscallEvent → Bool
is_failure evt = is_neg evt.ret && not (evt.ret ==ℤ neg 115)

unfoldable pub is_connect : SyscallEvent → Bool
is_connect evt = str_eq evt.type (bytes "connect")

-- `networkEvents` and `networkErrors` after the loop over the events.
unfoldable pub count_network : ℕ → ℕ → List SyscallEvent → ℕ × ℕ
unfolding is_connect is_failure
count_network events errors [] = (events, errors)
count_network events errors (evt ∷ evts) =
    if is_connect evt
    then count_network (events + 1) (if is_failure evt then errors + 1 else errors) evts
    else count_network events errors evts

unfoldable pub ip_text : ℕ × ℕ × ℕ × ℕ → Bytes
ip_text (a, b, c, d) =
    concat (dec a ∷ bytes "." ∷ dec b ∷ bytes "." ∷ dec c ∷ bytes "." ∷ dec d ∷ [])

unfoldable pub destination : NetworkData → Bytes
unfolding ip_text
destination n = ip_text n.dst_ip ++ (bytes ":" ++ dec n.dst_port)

unfoldable pub connect_status : ℤ → Bytes
connect_status ret =
    if ret ==ℤ neg 111
    then bytes "ECONNREFUSED"
    else if ret ==ℤ neg 110
    then bytes "ETIMEDOUT"
    else if ret ==ℤ neg 115
    then bytes "ASYNC"
    else if is_neg ret
    then bytes "ERROR"
    else bytes "SUCCESS"

-- The map `destinations` after the loop over the events.
unfoldable pub destinations_from : List (Bytes × Bytes) → List SyscallEvent → List (Bytes × Bytes)
destinations_from m [] = m
destinations_from m (evt ∷ evts) = elim evt.network [
  | none ↦ destinations_from m evts
  | some n ↦ destinations_from (insert (destination n) (connect_status evt.ret) m) evts
]

unfoldable pub destinations : List SyscallEvent → List (Bytes × Bytes)
unfolding destinations_from
destinations evts = destinations_from [] evts

unfoldable pub destination_line : Bytes × Bytes → Bytes
destination_line (dest, status) =
    concat (bytes "  " ∷ pad_right 30 dest ∷ bytes " " ∷ status ∷ bytes "\n" ∷ [])

abbrev pub Order : Type 0
Order = List (Bytes × Bytes) → List (Bytes × Bytes)

unfoldable pub network_summary : Order → List SyscallEvent → Bytes
unfolding count_network destinations destination_line
network_summary order evts =
    let (events, errors) = count_network 0 0 evts in
    if ltb 0 events
    then concat (
        bytes "NETWORK ACTIVITY SUMMARY\n"
        ∷ bytes "───────────────────────────────────────────────────────────────────\n"
        ∷ bytes "  Connections:    "
        ∷ dec events
        ∷ bytes "\n  Failed:         "
        ∷ dec errors
        ∷ bytes "\n\n"
        ∷ concat (map destination_line (order (destinations evts)))
        ∷ bytes "\n"
        ∷ [])
    else []
