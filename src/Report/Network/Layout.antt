-- ===== src/Report/Network/Layout.antt =====
-- The text of the network summary of `writeTxtReport` in internal/reports/reports.go, written out.
use amon.Common.{
  ℕ, zero, suc, ◌≡◌, refl, ap, ◌∙◌, List, [], ◌∷◌, ◌++◌, append_assoc, append-nil, Bytes, bytes,
  ltb, true, map, arith,
}
use amon.Strings.{dec, pad_right, concat}
use amon.Types.{SyscallEvent}
use amon.Report.Network.{Order, count_network, destinations, destination_line, network_summary}

-- The text of a summary of `n` connect events, of which some failed, with the destinations listed in
-- this order; no text without a connect event.
abbrev pub entry_lines : List (Bytes × Bytes) → Bytes
entry_lines [] = bytes "\n"
entry_lines ((dest, status) ∷ listed) =
    bytes "  "
    ++ (pad_right 30 dest ++ (bytes " " ++ (status ++ (bytes "\n" ++ entry_lines listed))))

abbrev pub summary_text : ℕ → ℕ → List (Bytes × Bytes) → Bytes
summary_text zero errors listed = []
summary_text (suc n) errors listed =
    bytes "NETWORK ACTIVITY SUMMARY\n"
    ++ (bytes "───────────────────────────────────────────────────────────────────\n"
        ++ (bytes "  Connections:    "
            ++ (dec (suc n)
                ++ (bytes "\n  Failed:         "
                    ++ (dec errors ++ (bytes "\n\n" ++ entry_lines listed))))))

regroup :
    (a b c d e rest : Bytes)
    → (a ++ (b ++ (c ++ (d ++ (e ++ []))))) ++ rest ≡ a ++ (b ++ (c ++ (d ++ (e ++ rest))))
regroup a b c d e rest =
    rw
      (
        append_assoc a (b ++ (c ++ (d ++ (e ++ [])))) rest,
        append_assoc b (c ++ (d ++ (e ++ []))) rest,
        append_assoc c (d ++ (e ++ [])) rest,
        append_assoc d (e ++ []) rest,
        append_assoc e [] rest,
      )
      refl

entry_lines_lem :
    (listed : List (Bytes × Bytes))
    → concat (map destination_line listed) ++ (bytes "\n" ++ []) ≡ entry_lines listed
unfolding destination_line concat
entry_lines_lem [] = append-nil (bytes "\n")
entry_lines_lem ((dest, status) ∷ listed) =
    let others = concat (map destination_line listed) in
    append_assoc (destination_line (dest, status)) others (bytes "\n" ++ [])
    ∙ regroup (bytes "  ") (pad_right 30 dest) (bytes " ") status (bytes "\n")
        (others ++ (bytes "\n" ++ []))
    ∙ ap (λ t. bytes "  " ++ (pad_right 30 dest ++ (bytes " " ++ (status ++ (bytes "\n" ++ t)))))
        (entry_lines_lem listed)

positive : (n : ℕ) → ltb 0 (suc n) ≡ true
positive n = ground arith

pub network_summary-summary_text :
    (order : Order) (evts : List SyscallEvent) (n errors : ℕ)
    → count_network 0 0 evts ≡ (n, errors)
    → network_summary order evts ≡ summary_text n errors (order (destinations evts))
unfolding network_summary concat
network_summary-summary_text order evts zero errors e = rw (network_summary, e) refl
network_summary-summary_text order evts (suc n) errors e =
    rw (network_summary, e, positive n, ← entry_lines_lem (order (destinations evts))) refl
