-- ===== src/App/Buildings.antt =====
-- The routes for `/buildings` of Guardian/src/app.cpp, with the ETag of Guardian/src/guardian.cpp.
use nicechunk_guardian.Base.{
  ℕ, zero, suc, ◌/◌, ◌%◌, ◌<◌, ◌≡◌, ◌≢◌, refl, sym, ap, ◌∙◌, ◌==◌, Bool, true, false, not, ◌&&◌,
  ◌||◌, if◌then◌else◌, List, [], ◌∷◌, ◌++◌, length, All, arith, Bool-cases, inl, inr, get_or,
  &&-true,
}
use nicechunk_guardian.Wire.{Bytes, byte_at}
use nicechunk_guardian.Config.{codes}
use nicechunk_guardian.Config.Text.{is_text}
use nicechunk_guardian.Building.Registry.{Registry, building_manifest_binary}

abbrev pub k_hex : Bytes
k_hex = codes "0123456789abcdef"

-- The loop of `hash_hex`, and the last quotation mark.
unfoldable pub hex_digits : Bytes → Bytes
hex_digits [] = b'"' ∷ []
hex_digits (value ∷ hash) =
    byte_at k_hex (value / 16) ∷ byte_at k_hex (value % 16) ∷ hex_digits hash

unfoldable pub hash_hex : Bytes → Bytes
unfolding hex_digits
hash_hex hash = b'"' ∷ hex_digits hash

unfoldable pub building_manifest_etag : Registry → Bytes
unfolding hash_hex
building_manifest_etag s = hash_hex s.building_hash

-- What the handler writes; without a status the library writes 200.
pub record Reply : Type 0 where
  pub status : Bytes
  pub headers : List (Bytes × Bytes)
  pub body : Bytes

abbrev pub options_buildings : Reply
options_buildings = record {
  status = codes "204 No Content";
  headers =
      (codes "Access-Control-Allow-Origin", codes "*")
      ∷ (codes "Access-Control-Allow-Methods", codes "GET, OPTIONS")
      ∷ (codes "Access-Control-Allow-Headers", codes "If-None-Match")
      ∷ [];
  body = [];
}

abbrev pub tag_headers : Bytes → List (Bytes × Bytes)
tag_headers etag =
    (codes "Access-Control-Allow-Origin", codes "*")
    ∷ (codes "Access-Control-Expose-Headers", codes "ETag")
    ∷ (codes "Cache-Control", codes "public, max-age=0, must-revalidate")
    ∷ (codes "ETag", etag)
    ∷ []

-- The handler, for the value of the header `if-none-match`, empty where there is none.
unfoldable pub get_buildings : Bytes → Registry → Reply
unfolding building_manifest_etag is_text
get_buildings if_none_match s =
    let etag = building_manifest_etag s in
    if is_text if_none_match etag
    then record { status = codes "304 Not Modified"; headers = tag_headers etag; body = [] }
    else record {
      status = codes "200 OK";
      headers = tag_headers etag ++ ((codes "Content-Type", codes "application/octet-stream") ∷ []);
      body = building_manifest_binary s;
    }

unfoldable is_member : ℕ → Bytes → Bool
is_member c [] = false
is_member c (d ∷ text) = d == c || is_member c text

unfoldable is_distinct : Bytes → Bool
unfolding is_member
is_distinct [] = true
is_distinct (c ∷ text) = not (is_member c text) && is_distinct text

get_or-is_member :
    (text : Bytes) (n : ℕ) → n < length text → is_member (get_or text n 0) text ≡ true
unfolding is_member
get_or-is_member [] n h = absurd (omega (arith, h))
get_or-is_member (c ∷ text) zero h = ground arith
get_or-is_member (c ∷ text) (suc n) h = ground (arith, get_or-is_member text n (omega (arith, h)))

-- Two places of a text without repetitions that hold the same are one place.
get_or_injective :
    (text : Bytes) (m n : ℕ)
    → is_distinct text ≡ true
    → m < length text
    → n < length text
    → get_or text m 0 ≡ get_or text n 0
    → m ≡ n
unfolding is_distinct
get_or_injective [] m n d h k e = absurd (omega (arith, h))
get_or_injective (c ∷ text) zero zero d h k e = refl
get_or_injective (c ∷ text) zero (suc n) d h k e =
    absurd
      (ground (arith, d, get_or-is_member text n (omega (arith, k)), ap (λ x. is_member x text) e))
get_or_injective (c ∷ text) (suc m) zero d h k e =
    absurd
      (ground (arith, d, get_or-is_member text m (omega (arith, h)), ap (λ x. is_member x text) e))
get_or_injective (c ∷ text) (suc m) (suc n) d h k e = ap suc (
    get_or_injective text m n (&&-true (not (is_member c text)) (is_distinct text) d).1
      (omega (arith, h)) (omega (arith, k)) e)

k_hex_distinct : is_distinct k_hex ≡ true
unfolding is_distinct
k_hex_distinct = refl

equal_bytes : (m n : ℕ) → (m == n) ≡ true → m ≡ n
equal_bytes m n h = ground arith

digit_injective : (m n : ℕ) → m < 16 → n < 16 → byte_at k_hex m ≡ byte_at k_hex n → m ≡ n
digit_injective m n h k =
    get_or_injective k_hex m n k_hex_distinct (omega (arith, h)) (omega (arith, k))

abbrev pub IsHash : Bytes → Type 0
IsHash hash = All (λ b. b < 256) hash × (length hash ≡ 16)

hex_digits_injective :
    (a b : Bytes)
    → All (λ x. x < 256) a
    → All (λ x. x < 256) b
    → length a ≡ length b
    → is_text (hex_digits a) (hex_digits b) ≡ true
    → a ≡ b
unfolding hex_digits is_text
hex_digits_injective [] [] h k l e = refl
hex_digits_injective [] (y ∷ b) h k l e = absurd (omega (arith, l))
hex_digits_injective (x ∷ a) [] h k l e = absurd (omega (arith, l))
hex_digits_injective (x ∷ a) (y ∷ b) h k l e =
    let (high, rest) = &&-true (byte_at k_hex (x / 16) == byte_at k_hex (y / 16)) _ e in
    let (low, more) = &&-true (byte_at k_hex (x % 16) == byte_at k_hex (y % 16)) _ rest in
    let up =
      digit_injective (x / 16) (y / 16) (omega (arith, h.0)) (omega (arith, k.0))
        (equal_bytes _ _ high) in
    let down =
      digit_injective (x % 16) (y % 16) (omega arith) (omega arith) (equal_bytes _ _ low) in
    let first : x ≡ y = omega (arith, up, down) in
    let others = hex_digits_injective a b h.1 k.1 (omega (arith, l)) more in cc (first, others)

is_text_refl : (a : Bytes) → is_text a a ≡ true
unfolding is_text
is_text_refl [] = refl
is_text_refl (c ∷ a) = ground (arith, is_text_refl a)

-- What a client gets that has seen the manifest with the hash `seen`: nothing new while the hash is the same, and
-- else the manifest.
pub record Serves (seen : Bytes) (s : Registry) (reply : Reply) : Type 0 where
  pub same : seen ≡ s.building_hash → (reply.status ≡ codes "304 Not Modified") × (reply.body ≡ [])
  pub other :
      seen ≢ s.building_hash
      → (reply.status ≡ codes "200 OK") × (reply.body ≡ building_manifest_binary s)

-- A client that sends the ETag of a hash of 16 bytes is told "304 Not Modified", without a body, if it is the hash of the
-- registry, and gets the manifest with "200 OK" if it is not.
pub get_buildings-Serves :
    (seen : Bytes) (s : Registry)
    → IsHash seen
    → IsHash s.building_hash
    → Serves seen s (get_buildings (hash_hex seen) s)
unfolding get_buildings building_manifest_etag hash_hex
get_buildings-Serves seen s (h, h16) (k, k16) = record {
  same = λ e.
      rw
        (
          ap (λ x. is_text (hash_hex seen) (hash_hex x)) (sym e) ∙ is_text_refl (hash_hex seen),
          get_buildings,
        )
        (refl, refl);
  other = λ ne. elim (Bool-cases (is_text (hash_hex seen) (hash_hex s.building_hash))) [
    | inl match ↦ absurd (
        ne (
          hex_digits_injective seen s.building_hash h k (omega (arith, h16, k16))
            (unfold is_text in ground (arith, match))))
    | inr differs ↦ rw (differs, get_buildings) (refl, refl)
  ];
}
