-- ===== src/Daemon/Names/Tables.antt =====
-- The tables of cmd/amon/main.go beside those of the other packages.
use amon.Common.{
  ℕ, pos, ◌+◌, ◌*◌, ◌<◌, ◌≡◌, refl, ◌≢◌, ◌⊎◌, ◌↔◌, true, [], ◌++◌, some, bytes, lookup, nat_key,
  arith,
}
use amon.Strings.{dec, dec_int}
use amon.Types.{ConnectEvent, ExitEvent, NetworkData}
use amon.Forensics.Analysis.{is_memory_fault, other_verdict, signal_names, name_in}
use amon.Report.{signal_name}
use amon.Daemon.Names.{is_crash, main_signal_name, uint32_to_ip, byte_of}
use amon.Daemon.Handlers.{connect_syscall}

-- The crashes are exactly the exits by a signal that the analysis has something to say of: a memory
-- fault, or a signal with a verdict of its own.
pub is_crash_iff :
    (e : ExitEvent)
    → (is_crash e ≡ true) ↔ ((is_memory_fault e.signal ≡ true) ⊎ ((other_verdict e.signal).0 ≢ []))
unfolding is_crash is_memory_fault other_verdict bytes
is_crash_iff e = (λ c. ground arith, λ c. ground arith)

-- `signalName` of main.go names the same signals as that of reports.go, but for SIGILL and SIGFPE,
-- which it does not know.
pub main_signal_name_iff :
    (n : ℕ) → (main_signal_name n ≡ signal_name (pos n)) ↔ ((n ≢ 4) × (n ≢ 8))
unfolding main_signal_name signal_name name_in signal_names lookup bytes dec_int
main_signal_name_iff n = (λ e. (λ four. ground arith, λ eight. ground arith), λ other. ground arith)

-- An address that is made of four bytes, the first one lowest, is stored in a connect event and
-- printed with these bytes in this order.
pub connect_syscall-dst_ip :
    (e : ConnectEvent) (a b c d : ℕ)
    → a < 256
    → b < 256
    → c < 256
    → d < 256
    → e.daddr ≡ a + 256 * (b + 256 * (c + 256 * d))
    → ((n : NetworkData) × ((connect_syscall e).network ≡ some n) × (n.dst_ip ≡ (a, b, c, d)))
      × (uint32_to_ip e.daddr
          ≡ dec a ++ (bytes "." ++ (dec b ++ (bytes "." ++ (dec c ++ (bytes "." ++ dec d))))))
unfolding connect_syscall uint32_to_ip
connect_syscall-dst_ip e a b c d ha hb hc hd eq =
    let first : byte_of e.daddr 1 ≡ a = omega arith in
    let second : byte_of e.daddr 256 ≡ b = omega arith in
    let third : byte_of e.daddr 65536 ≡ c = omega arith in
    let fourth : byte_of e.daddr 16777216 ≡ d = omega arith in
    rw (first, second, third, fourth) ((_, refl, refl), refl)
