-- ===== src/Rpc/Calls/Replies.antt =====
-- The replies with addresses, from the fields that the modem sends.
use xmm7360_mvp.Prelude.{
  ℕ, zero, suc, ◌^◌, ◌<◌, ◌≡◌, ◌≢◌, refl, ap, sym, ◌∙◌, ◌==◌, false, lt→ltb, List, [], ◌∷◌, ◌++◌,
  append_assoc, append-nil, arith, length, map, take, drop, take-append, All, codes,
}
use xmm7360_mvp.Result.{ok}
use xmm7360_mvp.Bytes.{Bytes, be_bytes, from_be_acc}
use xmm7360_mvp.Bytes.Laws.{length-be_bytes, from_be-be_bytes}
use xmm7360_mvp.Rpc.Take.{Field, num, str, unpack, unpack_unknown}
use xmm7360_mvp.Rpc.Take.Agree.{char_of, unpack-unpack_unknown}
use xmm7360_mvp.Rpc.Calls.{
  int_of_hex, bytes_to_ipv4, bytes_to_ipv6, Dns, add_server, dns_loop, dns_format,
  unpack_uta_ms_call_ps_get_neg_ip_addr_req, unpack_uta_ms_call_ps_get_negotiated_dns_req,
}

-- A name server of the reply: an address at the beginning of its field with the type 1 or 2, or an
-- entry of another type.
pub data Server : Type 0 where
  server_v4 server_v6 : ℕ → Bytes → Server
  unused : Bytes → ℕ → Server

abbrev pub IsServer : Server → Type 0
IsServer (server_v4 a pad) = a < 256 ^ 4
IsServer (server_v6 a pad) = a < 256 ^ 16
IsServer (unused bs typ) = (typ ≢ 1) × (typ ≢ 2)

abbrev pub server_fields : List Server → List Field
server_fields [] = []
server_fields (server_v4 a pad ∷ ss) = str (be_bytes 4 a ++ pad) ∷ num 1 ∷ server_fields ss
server_fields (server_v6 a pad ∷ ss) = str (be_bytes 16 a ++ pad) ∷ num 2 ∷ server_fields ss
server_fields (unused bs typ ∷ ss) = str bs ∷ num typ ∷ server_fields ss

-- The addresses of each version, in their order.
abbrev pub v4_of : List Server → List ℕ
v4_of [] = []
v4_of (server_v4 a pad ∷ ss) = a ∷ v4_of ss
v4_of (server_v6 a pad ∷ ss) = v4_of ss
v4_of (unused bs typ ∷ ss) = v4_of ss

abbrev pub v6_of : List Server → List ℕ
v6_of [] = []
v6_of (server_v4 a pad ∷ ss) = v6_of ss
v6_of (server_v6 a pad ∷ ss) = a ∷ v6_of ss
v6_of (unused bs typ ∷ ss) = v6_of ss

int_of_hex-length : (n : ℕ) (bs : Bytes) → length bs ≡ suc n → int_of_hex bs ≡ ok (from_be_acc 0 bs)
unfolding int_of_hex
int_of_hex-length n [] h = absurd (omega (arith, h))
int_of_hex-length n (b ∷ bs) h = refl

int_of_hex-be_bytes : (w a : ℕ) → a < 256 ^ suc w → int_of_hex (be_bytes (suc w) a) ≡ ok a
int_of_hex-be_bytes w a h =
    int_of_hex-length w (be_bytes (suc w) a) (length-be_bytes (suc w) a)
    ∙ ap ok (from_be-be_bytes (suc w) a h)

pub bytes_to_ipv4-be_bytes : (a : ℕ) → a < 256 ^ 4 → bytes_to_ipv4 (be_bytes 4 a) ≡ ok a
unfolding bytes_to_ipv4
bytes_to_ipv4-be_bytes a h = rw (int_of_hex-be_bytes 3 a h, lt→ltb a (2 ^ 32) h) refl

bytes_to_ipv6-be_bytes : (a : ℕ) → a < 256 ^ 16 → bytes_to_ipv6 (be_bytes 16 a) ≡ ok a
unfolding bytes_to_ipv6
bytes_to_ipv6-be_bytes a h = rw (int_of_hex-be_bytes 15 a h, lt→ltb a (2 ^ 128) h) refl

-- The front part of a field of a known length.
take-be_bytes : (w a : ℕ) (pad : Bytes) → take w (be_bytes w a ++ pad) ≡ be_bytes w a
take-be_bytes w a pad = rw (length-be_bytes w a) at (take-append (be_bytes w a) pad)

add_server_v4 :
    (a : ℕ) (pad : Bytes) (dns : Dns)
    → a < 256 ^ 4
    → add_server (str (be_bytes 4 a ++ pad)) (num 1) dns
      ≡ ok (record dns { v4 = dns.v4 ++ (a ∷ []) })
unfolding add_server
add_server_v4 a pad dns h = rw (take-be_bytes 4 a pad, bytes_to_ipv4-be_bytes a h) refl

add_server_v6 :
    (a : ℕ) (pad : Bytes) (dns : Dns)
    → a < 256 ^ 16
    → add_server (str (be_bytes 16 a ++ pad)) (num 2) dns
      ≡ ok (record dns { v6 = dns.v6 ++ (a ∷ []) })
unfolding add_server
add_server_v6 a pad dns h = rw (take-be_bytes 16 a pad, bytes_to_ipv6-be_bytes a h) refl

add_server_unused :
    (bs : Bytes) (typ : ℕ) (dns : Dns)
    → typ ≢ 1
    → typ ≢ 2
    → add_server (str bs) (num typ) dns ≡ ok dns
unfolding add_server
add_server_unused bs typ dns h h' =
    let first : (typ == 1) ≡ false = ground arith in
    let second : (typ == 2) ≡ false = ground arith in rw (first, second) refl

abbrev found : List ℕ → List ℕ → Dns
found v4s v6s = record { v4 = v4s; v6 = v6s }

dns_loop-servers :
    (ss : List Server) (tail : List Field) (v4s v6s : List ℕ)
    → All IsServer ss
    → dns_loop (length ss) (server_fields ss ++ tail) (found v4s v6s)
      ≡ ok (found (v4s ++ v4_of ss) (v6s ++ v6_of ss))
unfolding dns_loop
dns_loop-servers [] tail v4s v6s h = rw (append-nil v4s, append-nil v6s) refl
dns_loop-servers (server_v4 a pad ∷ ss) tail v4s v6s (ha, h) =
    rw (add_server_v4 a pad (found v4s v6s) ha) (
      rw (dns_loop-servers ss tail (v4s ++ (a ∷ [])) v6s h, append_assoc v4s (a ∷ []) (v4_of ss))
        refl)
dns_loop-servers (server_v6 a pad ∷ ss) tail v4s v6s (ha, h) =
    rw (add_server_v6 a pad (found v4s v6s) ha) (
      rw (dns_loop-servers ss tail v4s (v6s ++ (a ∷ [])) h, append_assoc v6s (a ∷ []) (v6_of ss))
        refl)
dns_loop-servers (unused bs typ ∷ ss) tail v4s v6s ((h₁, h₂), h) =
    rw (add_server_unused bs typ (found v4s v6s) h₁ h₂) (dns_loop-servers ss tail v4s v6s h)

-- The format characters of so many entries.
abbrev entry_chars : ℕ → List ℕ → List ℕ
entry_chars zero cs = cs
entry_chars (suc n) cs = b's' ∷ b'n' ∷ entry_chars n cs

server_fields-chars :
    (ss : List Server) (tail : List Field)
    → map char_of (server_fields ss ++ tail) ≡ entry_chars (length ss) (map char_of tail)
server_fields-chars [] tail = refl
server_fields-chars (server_v4 a pad ∷ ss) tail =
    ap (λ cs. b's' ∷ b'n' ∷ cs) (server_fields-chars ss tail)
server_fields-chars (server_v6 a pad ∷ ss) tail =
    ap (λ cs. b's' ∷ b'n' ∷ cs) (server_fields-chars ss tail)
server_fields-chars (unused bs typ ∷ ss) tail =
    ap (λ cs. b's' ∷ b'n' ∷ cs) (server_fields-chars ss tail)

-- The fields of the reply on name servers: a number, the sixteen entries, and six fields that are
-- not looked at.
abbrev pub dns_fields : ℕ → List Server → List Field → List Field
dns_fields n ss tail = num n ∷ (server_fields ss ++ tail)

-- For a reply whose fields are a number, sixteen servers and six fields
-- more of the format’s types: what is returned is the addresses of the entries of type 1 and those of type 2, each in their
-- order, and the entries of other types are left out.
pub negotiated_dns-dns_fields :
    (reply : Bytes) (n : ℕ) (ss : List Server) (tail : List Field)
    → length ss ≡ 16
    → All IsServer ss
    → map char_of tail ≡ codes "nsnnnn"
    → unpack_unknown reply ≡ ok (dns_fields n ss tail)
    → unpack_uta_ms_call_ps_get_negotiated_dns_req reply
      ≡ ok (record { v4 = v4_of ss; v6 = v6_of ss })
unfolding unpack_uta_ms_call_ps_get_negotiated_dns_req
negotiated_dns-dns_fields reply n ss tail size h shape e =
    let format : map char_of (dns_fields n ss tail) ≡ dns_format =
      ap (λ cs. b'n' ∷ cs)
        (server_fields-chars ss tail
          ∙ ap (λ k. entry_chars k (map char_of tail)) size
          ∙ ap (entry_chars 16) shape) in
    let read : unpack dns_format reply ≡ ok (dns_fields n ss tail) =
      ap (λ cs. unpack cs reply) (sym format)
      ∙ unpack-unpack_unknown reply (dns_fields n ss tail) e in
    rw read (
      ap (λ k. dns_loop k (server_fields ss ++ tail) (found [] [])) (sym size)
      ∙ dns_loop-servers ss tail [] [] h)

-- The fields of the reply on addresses: the three of them, one behind the other, and what is not
-- looked at.
abbrev pub address_fields : ℕ → ℕ → ℕ → Bytes → ℕ → List ℕ → List Field
address_fields a1 a2 a3 pad n ns =
    num n ∷ str (be_bytes 4 a1 ++ (be_bytes 4 a2 ++ (be_bytes 4 a3 ++ pad))) ∷ map num ns

four : (ns : List ℕ) → length ns ≡ 4 → (a b c d : ℕ) × (ns ≡ a ∷ b ∷ c ∷ d ∷ [])
four (a ∷ b ∷ c ∷ d ∷ []) h = (a, b, c, d, refl)
four [] h = absurd (omega (arith, h))
four (a ∷ []) h = absurd (omega (arith, h))
four (a ∷ b ∷ []) h = absurd (omega (arith, h))
four (a ∷ b ∷ c ∷ []) h = absurd (omega (arith, h))
four (a ∷ b ∷ c ∷ d ∷ e ∷ ns) h = absurd (omega (arith, h))

pub neg_ip_addr-address_fields :
    (reply : Bytes) (a1 a2 a3 : ℕ) (pad : Bytes) (n : ℕ) (ns : List ℕ)
    → a1 < 256 ^ 4
    → a2 < 256 ^ 4
    → a3 < 256 ^ 4
    → length ns ≡ 4
    → unpack_unknown reply ≡ ok (address_fields a1 a2 a3 pad n ns)
    → unpack_uta_ms_call_ps_get_neg_ip_addr_req reply ≡ ok (a1, a2, a3)
unfolding unpack_uta_ms_call_ps_get_neg_ip_addr_req
neg_ip_addr-address_fields reply a1 a2 a3 pad n ns h1 h2 h3 size e =
    let (b, c, d, f, is) = four ns size in
    let fields = address_fields a1 a2 a3 pad n (b ∷ c ∷ d ∷ f ∷ []) in
    let read : unpack (codes "nsnnnn") reply ≡ ok fields =
      unpack-unpack_unknown reply fields (rw is at e) in
    let bs = be_bytes 4 a1 ++ (be_bytes 4 a2 ++ (be_bytes 4 a3 ++ pad)) in
    let second : take 4 (drop 4 bs) ≡ be_bytes 4 a2 = unfold be_bytes in refl in
    let third : take 4 (drop 8 bs) ≡ be_bytes 4 a3 = unfold be_bytes in refl in
    rw read (
      rw (take-be_bytes 4 a1 (be_bytes 4 a2 ++ (be_bytes 4 a3 ++ pad)), second, third)
        (rw
          (bytes_to_ipv4-be_bytes a1 h1, bytes_to_ipv4-be_bytes a2 h2, bytes_to_ipv4-be_bytes a3 h3)
          refl))
