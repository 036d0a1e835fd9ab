-- ===== src/Protocol/Addresses.antt =====
-- pkg/protocol/protocol.go: the addresses of a packet, one at a time and in sequence.
use opn_box.Base.{
  ℕ, zero, suc, ◌≡◌, refl, ap, ◌⊎◌, Option, none, some, List, [], ◌∷◌, ◌++◌, map, Bytes, length,
  arith, take-append, drop-append, length-append, length-drop, length-take,
}
use mathlib.Core.List.{append_assoc}
use opn_box.Base.Outcome.{ok, >>=-eq-ok}
use opn_box.Net.{Ip, to4, to16}
use opn_box.Protocol.{encode_ip, encode_ips, decode_ip, decode_ips, read}

-- Four or sixteen bytes: what `To4` and `To16` accept.
abbrev pub IsAddress : Ip → Type 0
IsAddress ip = (length ip ≡ 4) ⊎ (length ip ≡ 16)

abbrev pub AllAddresses : List Ip → Type 0
AllAddresses [] = Unit {0}
AllAddresses (ip ∷ ips) = IsAddress ip × AllAddresses ips

abbrev pub wired : Ip → Option Ip → Ip
wired ip (some p) = p
wired ip none = ip

-- The form in which an address travels: an IPv4 address in its four bytes.
unfoldable pub wire_ip : Ip → Ip
wire_ip ip = wired ip (to4 ip)

pub length-to4 : (ip p : Ip) → to4 ip ≡ some p → length p ≡ 4
unfolding to4
length-to4 ip p h = ground (arith, length-drop 12 ip)

abbrev pub packed : Ip → Option Ip → Bytes
packed ip (some p) = 4 ∷ p
packed ip none = 6 ∷ ip

-- The bytes of one address.
unfoldable pub ip_bytes : Ip → Bytes
ip_bytes ip = packed ip (to4 ip)

pub encode_ip-eq : (ip : Ip) → IsAddress ip → encode_ip ip ≡ ok (ip_bytes ip)
unfolding encode_ip ip_bytes to16 to4
encode_ip-eq ip h = ground arith

pub read-append : (n : ℕ) (xs rest : Bytes) → length xs ≡ n → read n (xs ++ rest) ≡ ok (xs, rest)
unfolding read
read-append n xs rest h =
    rw (← h) (ground (arith, length-append xs rest, take-append xs rest, drop-append xs rest))

wire_four : (p rest : Bytes) → length p ≡ 4 → decode_ip (4 ∷ p ++ rest) ≡ ok (p, rest)
unfolding decode_ip
wire_four p rest h = read-append 4 p rest h

wire_sixteen : (p rest : Bytes) → length p ≡ 16 → decode_ip (6 ∷ p ++ rest) ≡ ok (p, rest)
unfolding decode_ip
wire_sixteen p rest h = read-append 16 p rest h

pub sixteen : (ip : Ip) → IsAddress ip → to4 ip ≡ none → length ip ≡ 16
unfolding to4
sixteen ip h e = ground arith

decode_ip-packed :
    (ip : Ip) (o : Option Ip) (rest : Bytes)
    → IsAddress ip
    → to4 ip ≡ o
    → decode_ip (packed ip o ++ rest) ≡ ok (wired ip o, rest)
decode_ip-packed ip (some p) rest h e = wire_four p rest (length-to4 ip p e)
decode_ip-packed ip none rest h e = wire_sixteen ip rest (sixteen ip h e)

pub decode_ip-ip_bytes :
    (ip : Ip) (rest : Bytes)
    → IsAddress ip
    → decode_ip (ip_bytes ip ++ rest) ≡ ok (wire_ip ip, rest)
unfolding wire_ip ip_bytes
decode_ip-ip_bytes ip rest h = decode_ip-packed ip (to4 ip) rest h refl

-- The bytes of all addresses.
unfoldable pub ips_bytes : List Ip → Bytes
ips_bytes [] = []
ips_bytes (ip ∷ ips) = ip_bytes ip ++ ips_bytes ips

pub encode_ips-eq : (ips : List Ip) → AllAddresses ips → encode_ips ips ≡ ok (ips_bytes ips)
unfolding encode_ips ips_bytes
encode_ips-eq [] h = refl
encode_ips-eq (ip ∷ ips) h = rw (encode_ip-eq ip h.0, encode_ips-eq ips h.1)

pub decode_ips-ips_bytes :
    (ips : List Ip) (rest : Bytes)
    → AllAddresses ips
    → decode_ips (length ips) (ips_bytes ips ++ rest) ≡ ok (map wire_ip ips)
unfolding decode_ips ips_bytes
decode_ips-ips_bytes [] rest h = refl
decode_ips-ips_bytes (ip ∷ ips) rest h = rw (
  append_assoc (ip_bytes ip) (ips_bytes ips) rest,
  decode_ip-ip_bytes ip (ips_bytes ips ++ rest) h.0,
  decode_ips-ips_bytes ips rest h.1,
)

read-length : (n : ℕ) (bs xs rest : Bytes) → read n bs ≡ ok (xs, rest) → length xs ≡ n
unfolding read
read-length n bs xs rest h = ground (arith, length-take n bs)

-- An accepted address has four or sixteen bytes.
pub decode_ip-IsAddress :
    (bs : Bytes) (ip : Ip) (rest : Bytes) → decode_ip bs ≡ ok (ip, rest) → IsAddress ip
unfolding decode_ip
decode_ip-IsAddress [] ip rest h = cc
decode_ip-IsAddress (f ∷ bs) ip rest h =
    ground (arith, read-length 4 bs ip rest, read-length 16 bs ip rest)

pub decode_ips-AllAddresses :
    (n : ℕ) (bs : Bytes) (ips : List Ip)
    → decode_ips n bs ≡ ok ips
    → AllAddresses ips × (length ips ≡ n)
unfolding decode_ips
decode_ips-AllAddresses zero bs [] h = (tt, refl)
decode_ips-AllAddresses zero bs (ip ∷ ips) h = cc
decode_ips-AllAddresses (suc n) bs ips h =
    let ((ip, rest), e, k) = >>=-eq-ok (decode_ip bs) _ h in
    let (ips', e', k') = >>=-eq-ok (decode_ips n rest) _ k in
    let ih = decode_ips-AllAddresses n rest ips' e' in
    let shape : ip ∷ ips' ≡ ips = cc k' in
    rw (← shape) ((decode_ip-IsAddress bs ip rest e, ih.0), ap suc ih.1)

encode_ip-IsAddress : (ip : Ip) (bs : Bytes) → encode_ip ip ≡ ok bs → IsAddress ip
unfolding encode_ip to4 to16
encode_ip-IsAddress ip bs h = ground arith

pub encode_ips-AllAddresses :
    (ips : List Ip) (bs : Bytes) → encode_ips ips ≡ ok bs → AllAddresses ips
unfolding encode_ips
encode_ips-AllAddresses [] bs h = tt
encode_ips-AllAddresses (ip ∷ ips) bs h =
    let (a, e, k) = >>=-eq-ok (encode_ip ip) _ h in
    let (r, e', k') = >>=-eq-ok (encode_ips ips) _ k in
    (encode_ip-IsAddress ip a e, encode_ips-AllAddresses ips r e')
