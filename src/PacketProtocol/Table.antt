-- ===== src/PacketProtocol/Table.antt =====
-- The table of protocols of src/packet_protocol.c.
use reqrypt.Common.{
  if◌then◌else◌, Bool-cases, length, get_elem?, take, drop, bytes_at, str_same, str_same_self,
  str_same-eq, codes, ℕ, ◌+◌, ◌≡◌, refl, sym, ◌≢◌, ◌⊎◌, inl, inr, true, false, Option, none, some,
  List, [], ◌∷◌, ◌++◌,
}
use mathlib.Core.Path.{subst}
use reqrypt.Common.Outcome.{Outcome, ok, panicked, read, ◌>>=◌}
use reqrypt.Packet.{packet_init}
use reqrypt.PacketProtocol.{http_url_match, dns_match}
use reqrypt.PacketProtocol.Generate.{http_url_generate, dns_generate}

-- `match` gets the byte behind the packet as well, and `generate` the data, the hash and what the
-- fresh memory of the generator of random numbers holds.
pub record Proto : Type 0 where
  pub name : List ℕ
  pub find : ℕ → List ℕ → Outcome (Option (ℕ × ℕ))
  pub generate : List ℕ → ℕ → ℕ → Outcome (List ℕ)

-- The entry without a name at the end is `none`.
abbrev pub protocols : List (Option Proto)
protocols =
    some (record {
      name = codes "http_url";
      find = http_url_match;
      generate = λ bytes hash unset. ok (http_url_generate (length bytes) hash unset);
    })
    ∷ some (record {
      name = codes "dns";
      find = λ beyond packet. dns_match packet;
      generate = dns_generate;
    })
    ∷ none
    ∷ []

-- The loop from the entry `i` on; 0 is the protocol that is substituted.
unfoldable pub find_protocol : List (Option Proto) → List ℕ → ℕ → ℕ
find_protocol [] name i = 0
find_protocol (none ∷ table) name i = 0
find_protocol (some p ∷ table) name i =
    let next = find_protocol table name (i + 1) in if str_same name p.name then i else next

unfoldable pub protocol_get : List ℕ → ℕ
unfolding find_protocol
protocol_get name = find_protocol protocols name 0

-- The number of entries counts the one without a name.
unfoldable pub protocol_get_def : ℕ → Outcome (Option Proto)
protocol_get_def proto = elim (get_elem? protocols proto) [
  | none ↦ panicked
  | some entry ↦ ok entry
]

-- A generator writes over the data of a packet without Ethernet header.
unfoldable pub over_data : (List ℕ → Outcome (List ℕ)) → List ℕ → Outcome (List ℕ)
unfolding packet_init
over_data generate packet = do
  h ← packet_init packet false
  elim h.start [
    | none ↦ ok packet
    | some start ↦ (do
      bytes ← read (bytes_at packet start h.data_size)
      bytes' ← generate bytes
      ok (take start packet ++ bytes' ++ drop (start + h.data_size) packet))
  ]

differs : (a b : List ℕ) → str_same a b ≡ false → a ≢ b
differs a b h e =
    let same : str_same a b ≡ true =
      subst (λ (x : List ℕ). str_same a x ≡ true) e (str_same_self a) in
    absurd (cc)

-- Whatever the name, `protocol_get_def` of what `protocol_get` returns is an entry with functions,
-- never the one at the end, and no call panics: the entry has that name, or it is the first one and
-- no entry has the name.
pub protocol_get-def :
    (name : List ℕ)
    → (p : Proto) × (protocol_get_def (protocol_get name) ≡ ok (some p))
      × ((p.name ≡ name)
          ⊎ ((protocol_get name ≡ 0) × (name ≢ codes "http_url") × (name ≢ codes "dns")))
unfolding protocol_get protocol_get_def
protocol_get-def name = elim (Bool-cases (str_same name (codes "http_url"))) [
  | inl http ↦ rw http (_, refl, inl (sym (str_same-eq name (codes "http_url") http)))
  | inr other ↦ elim (Bool-cases (str_same name (codes "dns"))) [
    | inl dns ↦ rw (other, dns) (_, refl, inl (sym (str_same-eq name (codes "dns") dns)))
    | inr neither ↦
        rw (other, neither)
          (
            _,
            refl,
            inr (refl, differs name (codes "http_url") other, differs name (codes "dns") neither),
          )
  ]
]
