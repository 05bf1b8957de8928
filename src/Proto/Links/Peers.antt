-- ===== src/Proto/Links/Peers.antt =====
-- A device of a link, written and read: crates/hit-proto/src/invite.rs and crates/hit-proto/src/contact.rs.
use hit_enter.Base.{ℕ, true, Option, none, some, ◌≡◌, refl, nat_key}
use hit_enter.Proto.Links.{Spelling, parse_peer, peer_text}
use hit_enter.Proto.Links.Texts.{lacks, split_once-none, split_once-some}

-- The text of a device reads as this device and has no `@`; the text of an address reads as this address.
abbrev pub IsReadable : {Addr : Type 0} → Spelling Addr → Type 0
IsReadable {Addr} sp =
    ((d : ℕ)
      → (sp.parse_device (sp.device_text d) ≡ some d) × (lacks b'@' (sp.device_text d) ≡ true))
    × ((a : Addr) → sp.parse_addr (sp.addr_text a) ≡ some a)

-- A device of a link, with its address or without, reads back from its text, if devices and addresses do.
pub parse_peer-peer_text :
    {Addr : Type 0} (sp : Spelling Addr)
    → IsReadable sp
    → (p : ℕ × Option Addr) → parse_peer sp (peer_text sp p) ≡ some p
unfolding parse_peer peer_text
parse_peer-peer_text sp (devices, addrs) (d, none) =
    let (reads, free) = devices d in
    rw (parse_peer, peer_text, split_once-none b'@' (sp.device_text d) free, reads) refl
parse_peer-peer_text sp (devices, addrs) (d, some a) =
    let (reads, free) = devices d in
    rw
      (
        parse_peer,
        peer_text,
        split_once-some b'@' (sp.device_text d) (sp.addr_text a) free,
        addrs a,
        reads,
      )
      refl
