-- ===== src/Crypto/Wpa.antt =====
-- src/device/wifi/wifi_wpa.c: the pairwise key that both ends derive, and the group key in the key
-- data of a message.
pub mod Agreement
pub mod GroupKey
use teatime_os.Base.{
  ℕ, zero, suc, ◌+◌, ◌-◌, ◌%◌, Bool, true, false, ◌&&◌, Option, none, some, List, [], ◌∷◌, ◌++◌,
  length, take, drop, ltb, leb, ◌==◌, if◌then◌else◌, byte,
}
use teatime_os.Crypto.Hmac.{sha1_prf}

-- Whether memcmp is negative.
unfoldable pub precedes : List ℕ → List ℕ → Bool
precedes (a ∷ s) (b ∷ t) = elim (a == b) [ true ↦ precedes s t | false ↦ ltb a b ]
precedes [] t = false
precedes (a ∷ s) [] = false

unfoldable pub lower : List ℕ → List ℕ → List ℕ
unfolding precedes
lower a b = if precedes a b then a else b

unfoldable pub higher : List ℕ → List ℕ → List ℕ
unfolding precedes
higher a b = if precedes a b then b else a

-- "Pairwise key expansion"
abbrev pub label : List ℕ
label =
    80 ∷ 97 ∷ 105 ∷ 114 ∷ 119 ∷ 105 ∷ 115 ∷ 101 ∷ 32 ∷ 107 ∷ 101 ∷ 121 ∷ 32 ∷ 101 ∷ 120 ∷ 112 ∷ 97
    ∷ 110 ∷ 115 ∷ 105 ∷ 111 ∷ 110 ∷ []

unfoldable pub derive_ptk : List ℕ → List ℕ → List ℕ → List ℕ → List ℕ → List ℕ
unfolding lower higher sha1_prf
derive_ptk pmk ap_bssid mac_addr anonce snonce =
    sha1_prf pmk label
      (lower ap_bssid mac_addr
        ++ higher ap_bssid mac_addr
        ++ lower anonce snonce
        ++ higher anonce snonce)
      48

pub record Gtk : Type 0 where
  pub id : ℕ
  pub key : List ℕ

abbrev pub is_gtk : List ℕ → ℕ → Bool
is_gtk kd len =
    (byte kd 0 == 0xdd && leb 6 len)
    && (byte kd 2 == 0x00 && (byte kd 3 == 0x0f && (byte kd 4 == 0xac && byte kd 5 == 0x01)))

abbrev pub gtk_of : List ℕ → ℕ → Gtk
gtk_of kd len = record {
  id = byte kd 6 % 4;
  key = take (if ltb 32 (len - 6) then 32 else len - 6) (drop 8 kd);
}

-- What is left from `off` on, in at most so many rounds. `none` leaves the keys as they were.
unfoldable pub gtk_loop : ℕ → List ℕ → Option Gtk
gtk_loop zero kd = none
gtk_loop (suc rounds) kd =
    let len = byte kd 1 in
    let further = gtk_loop rounds (drop len (drop 2 kd)) in
    if ltb (length kd) 2
    then none
    else if ltb (length kd) (2 + len)
    then none
    else if is_gtk kd len
    then some (gtk_of kd len)
    else further

unfoldable pub extract_gtk : List ℕ → Option Gtk
unfolding gtk_loop
extract_gtk kd = gtk_loop (length kd) kd
