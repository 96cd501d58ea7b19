-- ===== src/CktpClient/Reflect.antt =====
-- The reflection of ICMP messages: src/cktp_client.c asks for it, src/cktp_server.c does it.
use reqrypt.Common.{
  ltb, leb, ◌==◌, if◌then◌else◌, ==_iff, Bool-cases, length, get_elem?, set, take, drop,
  length-append, length-take, length-drop, get_elem?-take, get_elem?-append_left, get_elem?-some,
  u8, IsBytes, htons, u32_at, bytes_at, put_u16, drop-IsBytes, take-IsBytes, append-IsBytes,
  bytes_16, bytes_32, ℕ, zero, suc, ◌+◌, ◌-◌, ◌*◌, ◌%◌, ◌^◌, ◌≤◌, ◌≡◌, refl, ap, ◌∙◌, ◌≢◌, inl, inr,
  Bool, true, false, some, List, [], ◌∷◌, ◌++◌, arith,
}
use reqrypt.Common.Outcome.{ok}
use reqrypt.Checksum.{ip_checksum, icmp_checksum}
use reqrypt.Checksum.Rfc1071.{icmp_checksum-some}
use reqrypt.Checksum.Header.{
  IsHeader, with_check, ip_checksum-verifies, put_u16-IsBytes, length-put_u16, first-with_check,
}
use reqrypt.CktpServer.{cktp_reflect}
use reqrypt.CktpClient.{ClientTunnel, cktp_fragmentation_required}

-- What the server sends back of a message whose inner header has the first byte `b`.
reflect_lem :
    (b c0 c1 c2 c3 c4 c5 : ℕ) (rest : List ℕ)
    → 5 ≤ b % 16
    → length rest + 1 ≡ b % 16 * 4 + 8
    → cktp_reflect (52 ∷ 1 ∷ 3 ∷ 4 ∷ c0 ∷ c1 ∷ c2 ∷ c3 ∷ c4 ∷ c5 ∷ b ∷ rest)
      ≡ ok (some (3 ∷ 4 ∷ c0 ∷ c1 ∷ c2 ∷ c3 ∷ c4 ∷ c5 ∷ b ∷ rest))
unfolding cktp_reflect
reflect_lem b c0 c1 c2 c3 c4 c5 rest long size =
    let packet : List ℕ = 52 ∷ 1 ∷ 3 ∷ 4 ∷ c0 ∷ c1 ∷ c2 ∷ c3 ∷ c4 ∷ c5 ∷ b ∷ rest in
    let enough : ltb (length packet) 38 ≡ false = ground arith in
    let exact : (length packet - 2 == 8 + b % 16 * 4 + 8) ≡ true = ground arith in
    rw (enough, exact) refl

-- An ICMP message "fragmentation needed" with the checksum `sum`.
abbrev pub too_big : ℕ → ℕ → List ℕ
too_big sum mtu = 3 ∷ 4 ∷ bytes_16 sum ++ (0 ∷ 0 ∷ bytes_16 (htons mtu))

reflect_body :
    (b sum mtu : ℕ) (body : List ℕ)
    → get_elem? body 0 ≡ some b
    → 5 ≤ b % 16
    → length body ≡ b % 16 * 4 + 8
    → cktp_reflect (52 ∷ 1 ∷ too_big sum mtu ++ body) ≡ ok (some (too_big sum mtu ++ body))
reflect_body b sum mtu [] at long size = absurd (cc)
reflect_body b sum mtu (x ∷ rest) at long size =
    let same : x ≡ b = cc in reflect_lem x _ _ 0 0 _ _ rest (omega arith) (omega arith)

-- The body with the client's own address in it.
abbrev readdressed : ℕ → List ℕ → List ℕ
readdressed addr body = take 12 body ++ (bytes_32 addr ++ drop 16 body)

length-readdressed :
    (addr : ℕ) (body : List ℕ) → 16 ≤ length body → length (readdressed addr body) ≡ length body
length-readdressed addr body h = omega (
  arith,
  length-append (take 12 body) (bytes_32 addr ++ drop 16 body),
  length-take 12 body,
  length-drop 16 body,
)

readdressed-IsHeader :
    (addr b : ℕ) (body : List ℕ)
    → IsBytes body
    → get_elem? body 0 ≡ some b
    → 5 ≤ b % 16
    → length body ≡ b % 16 * 4 + 8
    → IsHeader (b % 16) (readdressed addr body)
readdressed-IsHeader addr b body bs at long size = record {
  bytes = append-IsBytes (take 12 body) (bytes_32 addr ++ drop 16 body) (take-IsBytes 12 body bs) (
      append-IsBytes (bytes_32 addr) (drop 16 body)
        (omega arith, (omega arith, (omega arith, (omega arith, tt)))) (drop-IsBytes 16 body bs));
  first = (
    b,
    get_elem?-append_left (take 12 body) (bytes_32 addr ++ drop 16 body) 0
          (omega (arith, length-take 12 body))
        ∙ (get_elem?-take 12 body 0 (omega arith) ∙ at),
    refl,
  );
  long = long;
  fits = omega (arith, length-readdressed addr body (omega arith));
}

readdressed_first :
    (addr b : ℕ) (body : List ℕ)
    → get_elem? body 0 ≡ some b
    → 16 ≤ length body
    → get_elem? (readdressed addr body) 0 ≡ some b
readdressed_first addr b body at h =
    get_elem?-append_left (take 12 body) (bytes_32 addr ++ drop 16 body) 0
      (omega (arith, length-take 12 body))
    ∙ (get_elem?-take 12 body 0 (omega arith) ∙ at)

copy_lem : (ip : List ℕ) (n : ℕ) → n ≤ length ip → bytes_at ip 0 n ≡ some (take n ip)
copy_lem ip n h = let within : leb (0 + n) (length ip) ≡ true = ground arith in rw within refl

u32_some : (xs : List ℕ) → 16 ≤ length xs → (n : ℕ) × (u32_at xs 12 ≡ some n)
u32_some xs h =
    let (a, at) = get_elem?-some xs 12 (omega arith) in
    let (b, bt) = get_elem?-some xs 13 (omega arith) in
    let (c, ct) = get_elem?-some xs 14 (omega arith) in
    let (d, dt) = get_elem?-some xs 15 (omega arith) in
    (a + 256 * b + 2 ^ 16 * (c + 256 * d), rw (at, bt, ct, dt) refl)

frag_chain :
    (tunnel : ClientTunnel) (mtu b saddr check sum : ℕ) (ip body body' : List ℕ)
    → get_elem? ip 0 ≡ some b
    → bytes_at ip 0 (u8 (b % 16 * 4 + 8)) ≡ some body
    → u32_at body 12 ≡ some saddr
    → ip_checksum (put_u16 (readdressed tunnel.client_addr body) 10 0) ≡ some check
    → (if saddr == tunnel.client_addr
        then body
        else put_u16 (put_u16 (readdressed tunnel.client_addr body) 10 0) 10 check)
      ≡ body'
    → icmp_checksum (too_big 0 mtu ++ body') (u8 (8 + u8 (b % 16 * 4 + 8))) ≡ some sum
    → cktp_fragmentation_required tunnel mtu ip ≡ some (52 ∷ 1 ∷ too_big sum mtu ++ body')
unfolding cktp_fragmentation_required
frag_chain tunnel mtu b saddr check sum ip body body' e1 e2 e3 e4 e5 e6 =
    simp (e1, e2, e3, e4, e5, e6)

-- The body that is quoted is as long as the first one, starts with the same byte and has bytes.
record IsQuoted (b n : ℕ) (body : List ℕ) : Type 0 where
  at : get_elem? body 0 ≡ some b
  size : length body ≡ n
  bytes : IsBytes body

IsQuoted-if :
    (b n : ℕ) (own : Bool) (body moved : List ℕ)
    → IsQuoted b n body
    → IsQuoted b n moved
    → IsQuoted b n (if own then body else moved)
IsQuoted-if b n true body moved h k = h
IsQuoted-if b n false body moved h k = k

-- The quoted part `body` of the bytes `sent`: as they are when the source is `addr`, else with `addr` as the
-- source and a checksum with which the header verifies.
pub data Quotes (addr : ℕ) (sent : List ℕ) (body : List ℕ) : Type 0 where
  as_sent : u32_at sent 12 ≡ some addr → body ≡ sent → Quotes addr sent body
  moved :
      (check : ℕ)
      → u32_at sent 12 ≢ some addr
      → body ≡ with_check (readdressed addr sent) check
      → ip_checksum body ≡ some 0
      → Quotes addr sent body

-- A word that is written twice.
set_twice :
    (xs : List ℕ) (i a b c d : ℕ)
    → set (set (set (set xs i a) (suc i) b) i c) (suc i) d ≡ set (set xs i c) (suc i) d
set_twice [] i a b c d = refl
set_twice (x ∷ []) zero a b c d = refl
set_twice (x ∷ y ∷ xs) zero a b c d = refl
set_twice (x ∷ xs) (suc i) a b c d = ap (λ (l : List ℕ). x ∷ l) (set_twice xs i a b c d)

-- The code clears the field of the checksum first.
cleared_first : (ip : List ℕ) (check : ℕ) → with_check (with_check ip 0) check ≡ with_check ip check
cleared_first ip check = set_twice ip 10 _ _ _ _

Quotes-if :
    (addr saddr check : ℕ) (sent : List ℕ)
    → u32_at sent 12 ≡ some saddr
    → ip_checksum (with_check (readdressed addr sent) check) ≡ some 0
    → Quotes addr sent
        (if saddr == addr then sent else with_check (with_check (readdressed addr sent) 0) check)
Quotes-if addr saddr check sent is_saddr verifies = elim (Bool-cases (saddr == addr)) [
  | inl e ↦ rw e (as_sent (is_saddr ∙ ap some ((==_iff saddr addr).0 e)) refl)
  | inr e ↦ rw e (
      moved check (λ h. ground arith) (cleared_first (readdressed addr sent) check)
        (ap ip_checksum (cleared_first (readdressed addr sent) check) ∙ verifies))
]

-- For an IPv4 packet with all of its header and eight bytes behind it, the message that asks for
-- smaller packets is made, and the server takes from it exactly the ICMP message: type 3, code 4, the
-- checksum of the whole message, the MTU, and the header with eight bytes as it was, or with the client's
-- address as the source and a checksum that verifies where the source is another one.
pub cktp_reflect-cktp_fragmentation_required :
    (tunnel : ClientTunnel) (mtu b : ℕ) (ip : List ℕ)
    → IsBytes ip
    → get_elem? ip 0 ≡ some b
    → 5 ≤ b % 16
    → b % 16 * 4 + 8 ≤ length ip
    → (sum : ℕ) × (body : List ℕ) × (cktp_fragmentation_required tunnel mtu ip
        ≡ some (52 ∷ 1 ∷ too_big sum mtu ++ body))
      × (cktp_reflect (52 ∷ 1 ∷ too_big sum mtu ++ body) ≡ ok (some (too_big sum mtu ++ body)))
      × (icmp_checksum (too_big 0 mtu ++ body) (8 + length body) ≡ some sum)
      × Quotes tunnel.client_addr (take (b % 16 * 4 + 8) ip) body
      × (length body ≡ b % 16 * 4 + 8)
cktp_reflect-cktp_fragmentation_required tunnel mtu b ip bs at long fits =
    let n : ℕ = b % 16 * 4 + 8 in
    let cut : u8 n ≡ n = omega arith in
    let body : List ℕ = take n ip in
    let size : length body ≡ n = omega (arith, length-take n ip) in
    let body_at : get_elem? body 0 ≡ some b = get_elem?-take n ip 0 (omega arith) ∙ at in
    let body_bs = take-IsBytes n ip bs in
    let addr : ℕ = tunnel.client_addr in
    let new_size = length-readdressed addr body (omega arith) in
    let header = readdressed-IsHeader addr b body body_bs body_at long size in
    let (check, is_check, low, verifies) =
      ip_checksum-verifies (b % 16) (readdressed addr body) header (omega arith) in
    let (saddr, is_saddr) = u32_some body (omega arith) in
    let cleared : List ℕ = put_u16 (readdressed addr body) 10 0 in
    let moved : List ℕ = put_u16 cleared 10 check in
    let (b', moved_at, same_ihl) = header.first in
    let quoted : IsQuoted b n moved = record {
      at =
          first-with_check cleared check
          ∙ (first-with_check (readdressed addr body) 0
              ∙ readdressed_first addr b body body_at (omega arith));
      size =
          length-put_u16 cleared 10 check
          ∙ (length-put_u16 (readdressed addr body) 10 0 ∙ (new_size ∙ size));
      bytes =
          put_u16-IsBytes cleared 10 check
            (put_u16-IsBytes (readdressed addr body) 10 0 header.bytes);
    } in
    let result : List ℕ = if saddr == addr then body else moved in
    let good =
      IsQuoted-if b n (saddr == addr) body moved
        (record { at = body_at; size = size; bytes = body_bs }) quoted in
    let whole : List ℕ = too_big 0 mtu ++ result in
    let (sum, is_sum) =
      icmp_checksum-some whole (8 + n)
        (append-IsBytes (too_big 0 mtu) result
          (
            omega arith,
            (
              omega arith,
              (
                omega arith,
                (omega arith, (omega arith, (omega arith, (omega arith, (omega arith, tt))))),
              ),
            ),
          )
          good.bytes)
        (omega (arith, length-append (too_big 0 mtu) result, good.size)) (omega arith) in
    let cut' : u8 (8 + u8 n) ≡ 8 + n = omega arith in
    let copied : bytes_at ip 0 (u8 n) ≡ some body =
      ap (λ (k : ℕ). bytes_at ip 0 k) cut ∙ copy_lem ip n fits in
    let quotes : Quotes addr body result = Quotes-if addr saddr check body is_saddr verifies in
    (
      sum,
      result,
      frag_chain tunnel mtu b saddr check sum ip body result at copied is_saddr is_check refl
          (ap (λ (k : ℕ). icmp_checksum whole k) cut' ∙ is_sum),
      reflect_body b sum mtu result good.at long good.size,
      ap (λ (k : ℕ). icmp_checksum whole (8 + k)) good.size ∙ is_sum,
      quotes,
      good.size,
    )
