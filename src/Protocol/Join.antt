-- ===== src/Protocol/Join.antt =====
-- What the two parties find together: the identifiers that both hold, and the product of the
-- ciphertexts that stand beside them, without either party seeing the other's identifiers.
use private_join_and_compute.Prelude.{
  ℕ, ◌≡◌, refl, ap, ◌∙◌, Bool, List, [], ◌∷◌, map, length, All, length-map, arith,
}
use private_join_and_compute.Prelude.Int.{pos}
use private_join_and_compute.Prelude.Bytes.{Bytes}
use private_join_and_compute.Util.Result.{ok}
use private_join_and_compute.Crypto.OpenSsl.{OpenSsl}
use private_join_and_compute.Crypto.OpenSsl.Curve.{Curve}
use private_join_and_compute.Crypto.EcPoint.{EcPoint}
use private_join_and_compute.Crypto.EcGroup.{EcGroup}
use private_join_and_compute.Crypto.CommutativeCipher.{CommutativeCipher}
use private_join_and_compute.Crypto.CommutativeCipher.Laws.{IsKeyed}
use private_join_and_compute.Std.{sort}
use mathlib.Core.Path.{fun_ext}
use private_join_and_compute.Std.Order.{
  has-sort, has, keep, IsDistinct, length-keep-sort, product, product-keep-sort,
}
use private_join_and_compute.Std.Intersection.{set_intersection-sort, keep-congr}
use private_join_and_compute.Match.{EncryptedElement}
use private_join_and_compute.Client.{re_encrypt_items, element_less}
use private_join_and_compute.Server.{encrypt_inputs, re_encrypt_client_set, intersect}
use private_join_and_compute.Protocol.Tags

All-map {ℓ κ μ} :
    {A : Type ℓ} {P : A → Type κ} {Q : A → Type μ} (f : (a : A) → P a → Q a) (xs : List A)
    → All P xs
    → All Q xs
All-map f [] h = tt
All-map f (x ∷ xs) h = (f x h.0, All-map f xs h.1)

has-map {ℓ κ} :
    {A : Type ℓ} {B : Type κ} (key : B → Bytes) (f : A → B) (k : Bytes) (xs : List A)
    → has key k (map f xs) ≡ has (λ a. key (f a)) k xs
unfolding has
has-map key f k [] = refl
has-map key f k (x ∷ xs) = rw (has-map key f k xs)

keep-map {ℓ κ} :
    {A : Type ℓ} {B : Type κ} (test : B → Bool) (f : A → B) (xs : List A)
    → keep test (map f xs) ≡ map f (keep (λ a. test (f a)) xs)
unfolding keep
keep-map test f [] = refl
keep-map test f (x ∷ xs) = ground (arith, keep-map test f xs)

All-unmap {ℓ κ μ} :
    {A : Type ℓ} {B : Type κ} (f : A → B) (P : B → Type μ) (xs : List A)
    → All P (map f xs)
    → All (λ a. P (f a)) xs
All-unmap f P [] h = tt
All-unmap f P (x ∷ xs) h = (h.0, All-unmap f P xs h.1)

product-map {ℓ κ} :
    {A : Type ℓ} {B : Type κ} (weight : B → ℕ) (f : A → B) (xs : List A)
    → product weight (map f xs) ≡ product (λ a. weight (f a)) xs
unfolding product
product-map weight f [] = refl
product-map weight f (x ∷ xs) = rw (product-map weight f xs)

-- An item of the client: its identifier, and the number that encrypts its associated value.
pub record Item : Type 0 where
  pub text : Bytes
  pub value : ℕ

-- The client's items whose identifiers the server holds too.
unfoldable pub common : List Item → List Bytes → List Item
common items ys = keep (λ x. has (λ y. y) x.text ys) items

module _ ⦃lib : OpenSsl⦄ (g : EcGroup lib) (curve : Curve lib g.group) (fuel : ℕ)
    (hash : Bytes → EcPoint lib) (c s : CommutativeCipher lib) (keyed_c : IsKeyed g curve c)
    (keyed_s : IsKeyed g curve s) where
  abbrev tag : Bytes → Bytes
  tag = Tags.tag g curve fuel hash c s keyed_c keyed_s

  abbrev IsHashed : Bytes → Type 0
  IsHashed = Tags.IsHashed g curve fuel hash c s keyed_c keyed_s

  -- The client's set, as the client sends it.
  abbrev pub client_item : Item → EncryptedElement
  client_item x = record {
    element = curve.encode (curve.times (hash x.text).point keyed_c.key);
    associated_data = lib.bn_bn2bin (pos x.value);
  }

  -- After the server has encrypted it again.
  abbrev pub tagged_item : Item → EncryptedElement
  tagged_item x = record { element = tag x.text; associated_data = lib.bn_bn2bin (pos x.value) }

  abbrev pub server_item : Bytes → EncryptedElement
  server_item y = record {
    element = curve.encode (curve.times (hash y).point keyed_s.key);
    associated_data = [];
  }

  abbrev pub tagged_input : Bytes → EncryptedElement
  tagged_input y = record { element = tag y; associated_data = [] }

  -- The server's first message.
  pub encrypt_inputs_lem :
      (ys : List Bytes) → All IsHashed ys → encrypt_inputs fuel s ys ≡ ok (map server_item ys)
  unfolding encrypt_inputs
  encrypt_inputs_lem [] h = refl
  encrypt_inputs_lem (y ∷ ys) h = rw (
    Tags.encrypt-hashed g curve fuel hash c s keyed_c keyed_s s keyed_s y h.0,
    encrypt_inputs_lem ys h.1,
  )

  -- The client turns it into tags.
  pub re_encrypt_items_lem :
      (ys : List Bytes)
      → All IsHashed ys
      → re_encrypt_items c (map server_item ys) ≡ ok (map tagged_input ys)
  unfolding re_encrypt_items
  re_encrypt_items_lem [] h = refl
  re_encrypt_items_lem (y ∷ ys) h = rw (
    Tags.re_encrypt-hashed g curve fuel hash c s keyed_c keyed_s c keyed_c y keyed_s.key
        keyed_s.inverse keyed_s.inverts h.0,
    Tags.tag_commutes g curve fuel hash c s keyed_c keyed_s y h.0,
    re_encrypt_items_lem ys h.1,
  )

  -- And the server turns the client's set into tags beside their data.
  pub re_encrypt_client_set_lem :
      (items : List Item)
      → All (λ x. IsHashed x.text) items
      → re_encrypt_client_set s (map client_item items) ≡ ok (map tagged_item items)
  unfolding re_encrypt_client_set
  re_encrypt_client_set_lem [] h = refl
  re_encrypt_client_set_lem (x ∷ xs) h = rw (
    Tags.re_encrypt-hashed g curve fuel hash c s keyed_c keyed_s s keyed_s x.text keyed_c.key
        keyed_c.inverse keyed_c.inverts h.0,
    re_encrypt_client_set_lem xs h.1,
  )

  -- On tags, comparing encodings is comparing identifiers.
  abbrev pub ApartIn : Item → List Bytes → Type 0
  ApartIn x = All (λ y. (hash x.text).point ≡ (hash y).point → x.text ≡ y)

  has-tagged :
      (x : Item) (ys : List Bytes)
      → IsHashed x.text
      → All IsHashed ys
      → ApartIn x ys
      → has EncryptedElement.element (tag x.text) (map tagged_input ys) ≡ has (λ y. y) x.text ys
  has-tagged x ys hx hys apart =
      has-map EncryptedElement.element tagged_input (tag x.text) ys
      ∙ Tags.has-tag g curve fuel hash c s keyed_c keyed_s tag (λ y. y) x.text ys hx hys
          (All-map (λ y hy. refl) ys hys) apart

  IsDistinct-tagged :
      (items : List Item)
      → All (λ x. IsHashed x.text) items
      → All (λ x. ApartIn x (map Item.text items)) items
      → IsDistinct Item.text items
      → IsDistinct EncryptedElement.element (map tagged_item items)
  IsDistinct-tagged [] hashed apart distinct = tt
  IsDistinct-tagged (x ∷ items) hashed apart distinct = (
    has-map EncryptedElement.element tagged_item (tag x.text) items
        ∙ Tags.has-tag g curve fuel hash c s keyed_c keyed_s (λ z. tag z.text) Item.text x.text
            items hashed.0 hashed.1 (All-map (λ y hy. refl) items hashed.1)
            (All-unmap Item.text _ items apart.0.1)
        ∙ distinct.0,
    IsDistinct-tagged items hashed.1 (All-map (λ y h. h.1) items apart.1) distinct.1,
  )

  keep-tagged :
      (ys : List Bytes) (items : List Item)
      → All (λ x. IsHashed x.text) items
      → All IsHashed ys
      → All (λ x. ApartIn x ys) items
      → keep
          (λ e. has EncryptedElement.element e.element (map tagged_input ys))
          (map tagged_item items)
        ≡ map tagged_item (common items ys)
  unfolding common
  keep-tagged ys items hashed hys apart =
      keep-map _ tagged_item items
      ∙ ap (map tagged_item) (keep-congr Item.text _ _ items (same items hashed apart))
    where
      same :
          (items : List Item)
          → All (λ x. IsHashed x.text) items
          → All (λ x. ApartIn x ys) items
          → All
              (λ x.
                has EncryptedElement.element (tag x.text) (map tagged_input ys)
                ≡ has (λ y. y) x.text ys)
              items
      same [] h a = tt
      same (x ∷ items) h a = (has-tagged x ys h.0 hys a.0, same items h.1 a.1)

  -- The sorted intersection is, up to order, the tagged items that both parties hold.
  pub intersect-tagged :
      (items : List Item) (ys : List Bytes)
      → All (λ x. IsHashed x.text) items
      → All (λ x. ApartIn x (map Item.text items)) items
      → IsDistinct Item.text items
      → intersect (map tagged_item items) (sort element_less (map tagged_input ys))
        ≡ keep
            (λ e. has EncryptedElement.element e.element (map tagged_input ys))
            (sort element_less (map tagged_item items))
  unfolding intersect
  intersect-tagged items ys hashed apart distinct =
      set_intersection-sort EncryptedElement.element (map tagged_item items)
        (sort element_less (map tagged_input ys)) (IsDistinct-tagged items hashed apart distinct)
      ∙ ap (λ test. keep test (sort element_less (map tagged_item items)))
          (fun_ext λ e. has-sort EncryptedElement.element e.element (map tagged_input ys))

  -- Where the texts hash to the curve within the fuel, the client's are distinct and no two different
  -- ones hash to the same point, the sorted intersection of the doubly encrypted sets is as long as the
  -- list of the client's items whose text the server holds.
  pub length-intersect :
      (items : List Item) (ys : List Bytes)
      → All (λ x. IsHashed x.text) items
      → All IsHashed ys
      → All (λ x. ApartIn x (map Item.text items)) items
      → All (λ x. ApartIn x ys) items
      → IsDistinct Item.text items
      → length (intersect (map tagged_item items) (sort element_less (map tagged_input ys)))
        ≡ length (common items ys)
  length-intersect items ys hashed hys own apart distinct =
      ap length (intersect-tagged items ys hashed own distinct)
      ∙ length-keep-sort _ _ (map tagged_item items)
      ∙ ap length (keep-tagged ys items hashed hys apart)
      ∙ length-map (common items ys) tagged_item

  -- So for the product of the numbers that stand beside the items.
  pub product-intersect :
      (items : List Item) (ys : List Bytes) (weight : EncryptedElement → ℕ)
      → All (λ x. IsHashed x.text) items
      → All IsHashed ys
      → All (λ x. ApartIn x (map Item.text items)) items
      → All (λ x. ApartIn x ys) items
      → IsDistinct Item.text items
      → product weight (intersect (map tagged_item items) (sort element_less (map tagged_input ys)))
        ≡ product (λ x. weight (tagged_item x)) (common items ys)
  product-intersect items ys weight hashed hys own apart distinct =
      ap (product weight) (intersect-tagged items ys hashed own distinct)
      ∙ product-keep-sort _ _ weight (map tagged_item items)
      ∙ ap (product weight) (keep-tagged ys items hashed hys apart)
      ∙ product-map weight tagged_item (common items ys)
