-- ===== src/Net/Icmp.antt =====
-- src/device/net/icmp.c: echo requests are answered in place.
use teatime_os.Base.{
  ℕ, ◌+◌, ◌-◌, true, ◌&&◌, Option, none, some, List, [], ◌∷◌, ◌++◌, length, take, drop, ltb, ◌==◌,
  if◌then◌else◌, byte, native16, native_word32,
}
use teatime_os.Net.State.{Net}
use teatime_os.Net.Checksum.{checksum}
use teatime_os.Net.Output.{net_tx}

unfoldable pub icmp_on_echo_reply : Net → Option Net
icmp_on_echo_reply n = if n.handler then none else some (record n { handler = true })

-- `e` starts with its type, code and checksum.
abbrev pub echo_reply : List ℕ → List ℕ
echo_reply e =
    let rest = drop 4 e in
    let blank = 0 ∷ byte e 1 ∷ 0 ∷ 0 ∷ rest in 0 ∷ byte e 1 ∷ native16 (checksum blank 0) ++ rest

-- The addresses are swapped, the time to live and the checksum set; options stay.
abbrev pub turned_header : List ℕ → List ℕ
turned_header h =
    let front = take 8 h ++ 64 ∷ byte h 9 ∷ [] in
    let rest = take 4 (drop 16 h) ++ take 4 (drop 12 h) ++ drop 20 h in
    front ++ native16 (checksum (front ++ 0 ∷ 0 ∷ rest) 0) ++ rest

unfoldable pub send_echo_reply : Net → List ℕ → ℕ → List ℕ → Net
unfolding checksum net_tx
send_echo_reply n buf ihl sa =
    (net_tx n sa (turned_header (take ihl buf) ++ echo_reply (drop ihl buf))).0

unfoldable pub icmp_recv : Net → List ℕ → ℕ → List ℕ → Net
unfolding send_echo_reply
icmp_recv n buf ihl sa =
    if ltb (length buf - ihl) 8
    then n
    else (let n' =
          if (byte buf ihl == 0) && n.handler
          then record n { echoes = native_word32 buf 12 ∷ n.echoes }
          else n in
        if (byte buf ihl == 8) && (byte buf (ihl + 1) == 0)
        then send_echo_reply n' buf ihl sa
        else n')
