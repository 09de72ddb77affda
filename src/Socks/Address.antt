-- ===== src/Socks/Address.antt =====
-- Addresses that amneziawg.go writes to a SOCKS client, read again by `readSocksAddress`.
use skipi_core.Base.{
  ℕ, ◌+◌, ◌*◌, ◌/◌, ◌%◌, ◌<◌, ◌≡◌, ◌⊎◌, refl, sym, ap, ◌∙◌, inl, inr, true, false, none, some, List,
  [], ◌∷◌, ◌++◌, ◌==◌, if◌then◌else◌, leb, Bool-cases, arith, length, take, drop, length-append,
  length-drop, str_eq,
}
use mathlib.Core.List.{append-nil, append_assoc}
use skipi_core.Socks.{
  Addr, to4, to16, read_full, Host, ip_host, name_host, got, read_socks_address, read_name,
  then_port, read_port, port_bytes, socks_reply_with_address, address_bytes, v4_prefix,
}

-- The address of a target as a client spells it: the type, the address and the port.
pub encode : Host → ℕ → ℕ × List ℕ
encode (ip_host ip) port = (if length ip == 4 then 1 else 4, ip ++ port_bytes port)
encode (name_host name) port = (3, length name ∷ name ++ port_bytes port)

-- What can be spelt so.
abbrev pub IsSpelt : Host → Type 0
IsSpelt (ip_host ip) = (length ip ≡ 4) ⊎ (length ip ≡ 16)
IsSpelt (name_host name) = (0 < length name) × (length name < 256)

take-append : (xs ys : List ℕ) → take (length xs) (xs ++ ys) ≡ xs
take-append [] ys = refl
take-append (x ∷ xs) ys = ap (λ zs. x ∷ zs) (take-append xs ys)

drop-append : (xs ys : List ℕ) → drop (length xs) (xs ++ ys) ≡ ys
drop-append [] ys = refl
drop-append (x ∷ xs) ys = drop-append xs ys

pub read_full-append :
    (n : ℕ) (xs ys : List ℕ) → length xs ≡ n → read_full n (xs ++ ys) ≡ some (xs, ys)
unfolding read_full
read_full-append n xs ys e =
    let fits : leb n (length (xs ++ ys)) ≡ true = ground (arith, length-append xs ys, e) in
    let t : take n (xs ++ ys) ≡ xs = rw⁻¹ e (take-append xs ys) in
    let d : drop n (xs ++ ys) ≡ ys = rw⁻¹ e (drop-append xs ys) in rw (fits, t, d) refl

pub read_port-bytes :
    (h : Host) (port : ℕ) (rest : List ℕ)
    → port < 65536
    → read_port h (port_bytes port ++ rest) ≡ got (h, port) rest
unfolding read_port
read_port-bytes h port rest b =
    let e : (port % 65536) / 256 * 256 + (port % 65536) % 256 ≡ port = omega arith in rw e refl

pub then_port-append :
    (f : List ℕ → Host) (n : ℕ) (bytes : List ℕ) (port : ℕ) (rest : List ℕ)
    → length bytes ≡ n
    → port < 65536
    → then_port f (read_full n ((bytes ++ port_bytes port) ++ rest)) ≡ got (f bytes, port) rest
unfolding then_port
then_port-append f n bytes port rest e b =
    ap (λ x. then_port f (read_full n x)) (append_assoc bytes (port_bytes port) rest)
    ∙ ap (then_port f) (read_full-append n bytes (port_bytes port ++ rest) e)
    ∙ read_port-bytes (f bytes) port rest b

-- What a client spells, an address of 4 or 16 bytes or a name of 1 to 255 and a port below 65536,
-- is read as what it means, with just the bytes behind it left.
pub read_socks_address-encode :
    (h : Host) (port : ℕ) (rest : List ℕ)
    → IsSpelt h
    → port < 65536
    → read_socks_address ((encode h port).1 ++ rest) (encode h port).0 ≡ got (h, port) rest
unfolding read_socks_address encode read_name
read_socks_address-encode (ip_host ip) port rest (inl e) b =
    rw e (then_port-append ip_host 4 ip port rest e b)
read_socks_address-encode (ip_host ip) port rest (inr e) b =
    rw e (then_port-append ip_host 16 ip port rest e b)
read_socks_address-encode (name_host name) port rest v b =
    let nonzero : (length name == 0) ≡ false = ground (arith, v.0) in
    rw nonzero (then_port-append name_host (length name) name port rest refl b)

-- The address that a reply shows: the form of four bytes where there is one.
pub shown : List ℕ → List ℕ
shown ip = elim (to4 ip) [ some a ↦ a | none ↦ ip ]

length-drop_12 : (ip : List ℕ) → length ip ≡ 16 → length (drop 12 ip) ≡ 4
length-drop_12 ip e = ground (arith, length-drop 12 ip)

address_bytes-encode :
    (ip : List ℕ) (port : ℕ)
    → (length ip ≡ 4) ⊎ (length ip ≡ 16)
    → let (atyp, bytes) = encode (ip_host (shown ip)) port in
      IsSpelt (ip_host (shown ip)) × (address_bytes ip ++ port_bytes port ≡ atyp ∷ bytes)
unfolding address_bytes encode shown to4 to16
address_bytes-encode ip port (inl e) = rw (e, e, shown, address_bytes, to4) (inl refl, refl)
address_bytes-encode ip port (inr e) = elim (Bool-cases (str_eq (take 12 ip) v4_prefix)) [
  | inl m ↦ let f = length-drop_12 ip e in rw (e, m, f, shown, address_bytes, to4) (inl refl, refl)
  | inr m ↦ rw (e, m, shown, address_bytes, to4) (rw (e, to16) (inr refl, refl))
]

-- A reply that names an address of either form and a port below 65536 is read by a client as that address and port.
pub socks_reply-read :
    (rep : ℕ) (a : Addr)
    → (length a.ip ≡ 4) ⊎ (length a.ip ≡ 16)
    → a.port < 65536
    → (atyp : ℕ) × (bytes : List ℕ) × (socks_reply_with_address rep a ≡ 5 ∷ rep ∷ 0 ∷ atyp ∷ bytes)
      × (read_socks_address bytes atyp ≡ got (ip_host (shown a.ip), a.port) [])
unfolding socks_reply_with_address
socks_reply-read rep a v b =
    let (spelt, e) = address_bytes-encode a.ip a.port v in
    let (atyp, bytes) = encode (ip_host (shown a.ip)) a.port in
    (
      atyp,
      bytes,
      ap (λ x. 5 ∷ rep ∷ 0 ∷ x) e,
      ap (λ x. read_socks_address x atyp) (sym (append-nil bytes))
          ∙ read_socks_address-encode (ip_host (shown a.ip)) a.port [] spelt b,
    )
