-- ===== src/Wire/Name/RoundTrip.antt =====
-- src/quic_wire.rs, lines 206 to 220 and 601 to 631: session names read back from their bytes.
use herdr_dog_relay.Prelude.{
  ℕ, ◌+◌, ◌≤◌, ◌<◌, ◌≡◌, refl, List, [], ◌∷◌, false, not, ok, Bytes, All, slice, length, any,
  nat_ord, bytes_ord, is_utf8-ascii, ap, sym, ◌∙◌, flatten, slice-flatten, length-append,
  length-slice, arith,
}
use herdr_dog_relay.Wire.Name.{
  SessionName, IsName, new, bad_name, is_empty, name_byte, name_of_bytes, decode_session_name,
  encode_session_name,
}

-- What the checks of `new` say of the name it returns.
record IsChecked (v : Bytes) : Type 0 where
  filled : is_empty v ≡ false
  good : bad_name v ≡ false

IsChecked-of_new : (v : Bytes) (s : SessionName) → new v ≡ ok s → IsChecked s.as_str
unfolding new is_empty
IsChecked-of_new [] s h = ground arith
IsChecked-of_new (b ∷ bs) s h = ground arith

new_of_checked : (s : SessionName) → IsChecked s.as_str → IsName s
unfolding new
new_of_checked s c = ground arith

-- What `new` returns, `new` accepts unchanged.
pub new-IsName : (v : Bytes) (s : SessionName) → new v ≡ ok s → IsName s
new-IsName v s h = new_of_checked s (IsChecked-of_new v s h)

-- Bytes that are there are not replaced by the default.
pub new-as_str : (b : ℕ) (bs : Bytes) (s : SessionName) → new (b ∷ bs) ≡ ok s → s.as_str ≡ b ∷ bs
unfolding new is_empty
new-as_str b bs s h = ground arith

length-filled : (v : Bytes) → is_empty v ≡ false → 1 ≤ length v
unfolding is_empty
length-filled [] h = cc
length-filled (b ∷ bs) h = omega arith

length-good : (v : Bytes) → bad_name v ≡ false → length v ≤ 64
unfolding bad_name
length-good v h = ground arith

-- A name has 1 to 64 bytes.
pub length-name : (s : SessionName) → IsName s → (1 ≤ length s.as_str) × (length s.as_str ≤ 64)
length-name s h =
    let c = IsChecked-of_new s.as_str s h in
    (length-filled s.as_str c.filled, length-good s.as_str c.good)

bytes-good : (v : Bytes) → any (λ b. not (name_byte b)) v ≡ false → All (λ b. b < 128) v
unfolding name_byte
bytes-good [] h = tt
bytes-good (b ∷ bs) h = ground (arith, bytes-good bs)

any-good : (v : Bytes) → bad_name v ≡ false → any (λ b. not (name_byte b)) v ≡ false
unfolding bad_name
any-good v h = ground arith

pub name-ascii : (s : SessionName) → IsName s → All (λ b. b < 128) s.as_str
name-ascii s h = bytes-good s.as_str (any-good s.as_str (IsChecked-of_new s.as_str s h).good)

pub name_of_bytes-name : (s : SessionName) → IsName s → name_of_bytes s.as_str ≡ ok s
unfolding name_of_bytes
name_of_bytes-name s h = rw (is_utf8-ascii s.as_str (name-ascii s h)) h

-- A name read from at least one byte holds those bytes.
pub name_of_bytes_inv :
    (v : Bytes) (s : SessionName)
    → 1 ≤ length v
    → name_of_bytes v ≡ ok s
    → IsName s × (s.as_str ≡ v)
unfolding name_of_bytes
name_of_bytes_inv [] s n h = elim n [ ]
name_of_bytes_inv (b ∷ bs) s n h =
    let e : new (b ∷ bs) ≡ ok s = ground arith in (new-IsName (b ∷ bs) s e, new-as_str b bs s e)

pub encode_name :
    (s : SessionName) (l : List Bytes)
    → IsName s
    → encode_session_name s l ≡ ok (flatten ((length s.as_str ∷ []) ∷ s.as_str ∷ l))
unfolding encode_session_name
encode_name s l h = ground (arith, length-name s h, (IsChecked-of_new s.as_str s h).filled)

-- `decode_session_name` reads the name that `encode_session_name` wrote, whatever follows.
pub decode_name :
    (s : SessionName) (l : List Bytes)
    → IsName s
    → decode_session_name (flatten ((length s.as_str ∷ []) ∷ s.as_str ∷ l))
      ≡ ok (s, 1 + length s.as_str)
unfolding decode_session_name flatten
decode_name s l h =
    let fields : List Bytes = (length s.as_str ∷ []) ∷ s.as_str ∷ l in
    let p : slice 1 (1 + length s.as_str) (flatten fields) ≡ s.as_str =
      slice-flatten fields 1 s.as_str 1 _ refl refl refl in
    ground (arith, length-name s h, length-append s.as_str (flatten l), p, name_of_bytes-name s h)

-- What `decode_session_name` says of the bytes that it accepts.
pub record ReadsName (bytes : Bytes) (s : SessionName) (off : ℕ) : Type 0 where
  pub name : IsName s
  pub off_eq : off ≡ 1 + length s.as_str
  pub fits : off ≤ length bytes
  pub len_byte : slice 0 1 bytes ≡ length s.as_str ∷ []
  pub body : slice 1 off bytes ≡ s.as_str

pub decode_name_inv :
    (bytes : Bytes) (s : SessionName) (off : ℕ)
    → decode_session_name bytes ≡ ok (s, off)
    → ReadsName bytes s off
unfolding decode_session_name
decode_name_inv [] s off h = cc
decode_name_inv (n ∷ rest) s off h = record {
  name = inv.0;
  off_eq = omega (arith, facts, len);
  fits = omega (arith, facts);
  len_byte = rw len;
  body = rw facts.3 (sym inv.1);
}
  where
    facts :
        (1 ≤ n)
        × (n ≤ 64)
        × (1 + n ≤ length (n ∷ rest))
        × (off ≡ 1 + n)
        × (name_of_bytes (slice 1 (1 + n) (n ∷ rest)) ≡ ok s)
    facts = ground arith

    size : length (slice 1 (1 + n) (n ∷ rest)) ≡ n
    size = omega (arith, facts, length-slice 1 (1 + n) (n ∷ rest))

    inv : IsName s × (s.as_str ≡ slice 1 (1 + n) (n ∷ rest))
    inv = name_of_bytes_inv _ s (omega (arith, facts, size)) facts.4

    len : length s.as_str ≡ n
    len = ap length inv.1 ∙ size
