-- ===== src/Events/ValsetUpdated/Parsing.antt =====
-- `ValsetUpdatedEvent::from_log` reads back what the contract has written, and does not look at the
-- length that the contract has written for the powers.
use minter_hub.Abi.{
  address_word, from_bytes_be-word, from_slice-address, length-address_word, length-word, word,
}
use minter_hub.Bytes.{Bytes, concat}
use minter_hub.Bytes.Slices.{AreWords, slice-concat}
use minter_hub.Crates.{Clarity, Num256}
use minter_hub.Events.{Log}
use minter_hub.Events.ValsetUpdated.{read_member, read_members, valset_updated_from_log}
use minter_hub.Outcome.{ok}
use minter_hub.Prelude.{
  ==_iff, All, List, [], arith, get_elem?, get_elem?-append_left, get_elem?-append_right,
  get_elem?-map, length, length-map, le→leb, map, refl, some, suc, zero, ℕ, ◌*◌, ◌++◌, ◌+◌, ◌<◌,
  ◌^◌, ◌∙◌, ◌∷◌, ◌≡◌,
}
use minter_hub.Valset.{ValsetMember}
use minter_hub.Words.{add_u64, mul_u64}

-- A power and an address, as the contract lists them.
abbrev pub Entry : Type 0
Entry = ℕ × ℕ

abbrev pub member_of : Entry → ValsetMember
member_of e = record { power = e.0; eth_address = some e.1 }

abbrev pub IsEntry : Entry → Type 0
IsEntry e = (e.0 < 18446744073709551616) × (e.1 < 2 ^ 160)

-- The data of the event: two offsets, the addresses behind their number, and the powers behind the
-- number that is written for them.
abbrev pub valset_words : ℕ → ℕ → List Entry → ℕ → List Bytes
valset_words offset1 offset2 entries claimed =
    word offset1
    ∷ word offset2
    ∷ word (length entries)
    ∷ (map (λ (e : Entry). address_word e.1) entries
        ++ word claimed ∷ map (λ (e : Entry). word e.0) entries)

All-map :
    {A : Type 0} (P : Bytes → Type 0) (f : A → Bytes) (xs : List A)
    → ((x : A) → P (f x))
    → All P (map f xs)
All-map P f [] h = tt
All-map P f (x ∷ xs) h = (h x, All-map P f xs h)

All-append : (P : Bytes → Type 0) (xs ys : List Bytes) → All P xs → All P ys → All P (xs ++ ys)
All-append P [] ys h k = k
All-append P (x ∷ xs) ys h k = (h.0, All-append P xs ys h.1 k)

valset_words-AreWords :
    (o1 o2 : ℕ) (entries : List Entry) (claimed : ℕ) → AreWords (valset_words o1 o2 entries claimed)
valset_words-AreWords o1 o2 entries claimed = (
  length-word o1,
  (
    length-word o2,
    (
      length-word (length entries),
      All-append _ (map (λ (e : Entry). address_word e.1) entries)
          (word claimed ∷ map (λ (e : Entry). word e.0) entries)
          (All-map _ (λ (e : Entry). address_word e.1) entries (λ e. length-address_word e.1))
          (length-word claimed, All-map _ (λ (e : Entry). word e.0) entries (λ e. length-word e.0)),
    ),
  ),
)

module _ (num : Num256) (eth : Clarity) where
  read_member_lem :
      (cs : List Bytes) (offset i j : ℕ) (e : Entry)
      → AreWords cs
      → IsEntry e
      → get_elem? cs (3 + i) ≡ some (address_word e.1)
      → get_elem? cs j ≡ some (word e.0)
      → i * 32 + offset ≡ 32 * j
      → i * 32 + 128 < 18446744073709551616
      → 32 * j + 32 < 18446744073709551616
      → read_member num eth (concat cs) 96 offset i ≡ ok (member_of e)
  unfolding read_member
  read_member_lem cs offset i j e w v at_address at_power place fits_a fits_p =
      let s1 : add_u64 (mul_u64 i 32) offset ≡ 32 * j + 0 = omega arith in
      let s2 : add_u64 (add_u64 (mul_u64 i 32) offset) 32 ≡ 32 * j + 32 = omega arith in
      let s3 : add_u64 (add_u64 (mul_u64 i 32) 96) 12 ≡ 32 * (3 + i) + 12 = omega arith in
      let s4 : add_u64 (add_u64 (mul_u64 i 32) 96) 32 ≡ 32 * (3 + i) + 32 = omega arith in
      rw (slice-concat cs j 0 _ _ (word e.0) w at_power (omega arith) s1 s2) (
        rw
          (
            slice-concat cs (3 + i) 12 _ _ (address_word e.1) w at_address (omega arith) s3 s4,
            from_slice-address num eth e.1 v.1,
            from_bytes_be-word num eth e.0 (omega arith),
            le→leb e.0 18446744073709551615 (omega arith),
          )
          refl)

  -- The loop, from the entry `i` that it has come to, among `total` entries: `here` tells where the
  -- words of the rest stand.
  read_members_lem :
      (cs : List Bytes) (total n i : ℕ) (rest : List Entry)
      → AreWords cs
      → All IsEntry rest
      → n ≡ length rest
      → i + n ≡ total
      → 32 * (5 + total + total) < 18446744073709551616
      → ((k x y : ℕ) (e : Entry)
          → get_elem? rest k ≡ some e
          → x ≡ 3 + i + k
          → y ≡ 4 + total + i + k
          → (get_elem? cs x ≡ some (address_word e.1)) × (get_elem? cs y ≡ some (word e.0)))
      → read_members num eth (concat cs) 96 (32 * (4 + total)) n i ≡ ok (map member_of rest)
  unfolding read_members
  read_members_lem cs total zero i [] w v l o b here = refl
  read_members_lem cs total zero i (e ∷ rest) w v l o b here = absurd (omega arith)
  read_members_lem cs total (suc n) i [] w v l o b here = absurd (omega arith)
  read_members_lem cs total (suc n) i (e ∷ rest) w v l o b here =
      let (at_address, at_power) =
        here 0 (3 + i) (4 + total + i) e refl (omega arith) (omega arith) in
      rw
        (read_member_lem cs (32 * (4 + total)) i (4 + total + i) e w v.0 at_address at_power
          (omega arith) (omega arith) (omega arith))
        (rw
          (read_members_lem cs total n (i + 1) rest w v.1 (omega arith) (omega arith) b
            (λ k x y e' m p q. here (suc k) x y e' m (omega arith) (omega arith)))
          refl)

  -- Where the words of an entry stand in the data.
  valset_words-at :
      (o1 o2 : ℕ) (entries : List Entry) (claimed k x y : ℕ) (e : Entry)
      → get_elem? entries k ≡ some e
      → x ≡ 3 + 0 + k
      → y ≡ 4 + length entries + 0 + k
      → (get_elem? (valset_words o1 o2 entries claimed) x ≡ some (address_word e.1))
        × (get_elem? (valset_words o1 o2 entries claimed) y ≡ some (word e.0))
  valset_words-at o1 o2 entries claimed k x y e m p q =
      let addresses = map (λ (e : Entry). address_word e.1) entries in
      let ps = map (λ (e : Entry). word e.0) entries in
      let x' : x ≡ suc (suc (suc k)) = omega arith in
      let y' : y ≡ suc (suc (suc (length addresses + suc k))) =
        omega (arith, length-map (λ (e : Entry). address_word e.1) entries) in
      rw (x', y')
        (
          get_elem?-append_left addresses (word claimed ∷ ps) k (address_word e.1)
              (get_elem?-map (λ (e : Entry). address_word e.1) entries k e m),
          get_elem?-append_right addresses (word claimed ∷ ps) (suc k) (length addresses + suc k)
                refl
              ∙ get_elem?-map (λ (e : Entry). word e.0) entries k e m,
        )

  -- For a log of the contract, with the nonce as its second topic and any two offsets, and whatever
  -- number below 2 ^ 64 is written as the length of the powers, `from_log` returns the nonce and the
  -- members in their order. The nonce and the powers are below 2 ^ 64, the addresses below 2 ^ 160, and
  -- the data does not exceed the range of `usize`.
  pub valset_updated_from_log-roundtrip :
      (log : Log) (topic0 : Bytes) (more : List Bytes) (nonce o1 o2 : ℕ) (entries : List Entry)
      (claimed : ℕ)
      → log.topics ≡ topic0 ∷ word nonce ∷ more
      → log.log_data ≡ concat (valset_words o1 o2 entries claimed)
      → nonce < 18446744073709551616
      → claimed < 18446744073709551616
      → All IsEntry entries
      → 32 * (5 + length entries + length entries) < 18446744073709551616
      → valset_updated_from_log num eth log
        ≡ ok (record { nonce = nonce; members = map member_of entries })
  unfolding valset_updated_from_log
  valset_updated_from_log-roundtrip log t0 more nonce o1 o2 entries claimed ts ds n c v b =
      let cs = valset_words o1 o2 entries claimed in
      let w = valset_words-AreWords o1 o2 entries claimed in
      let addresses = map (λ (e : Entry). address_word e.1) entries in
      let m = length entries in
      let at_claimed : get_elem? cs (suc (suc (suc (length addresses)))) ≡ some (word claimed) =
        get_elem?-append_right addresses (word claimed ∷ map (λ (e : Entry). word e.0) entries) 0
          (length addresses) (omega arith) in
      let m' = length-map (λ (e : Entry). address_word e.1) entries in
      let s1 : mul_u64 (add_u64 3 m) 32 ≡ 32 * suc (suc (suc (length addresses))) + 0 =
        omega (arith, m') in
      let s2 : add_u64 (mul_u64 (add_u64 3 m) 32) 32
          ≡ 32 * suc (suc (suc (length addresses))) + 32 =
        omega (arith, m') in
      let s4 : add_u64 (mul_u64 (add_u64 3 m) 32) 32 ≡ 32 * (4 + m) = omega arith in
      rw
        (
          ts,
          ds,
          from_bytes_be-word num eth nonce (omega arith),
          le→leb nonce 18446744073709551615 (omega arith),
          slice-concat cs 2 0 64 96 (word m) w refl (omega arith) (omega arith) (omega arith),
          from_bytes_be-word num eth m (omega arith),
          le→leb m 18446744073709551615 (omega arith),
          slice-concat cs (suc (suc (suc (length addresses)))) 0 _ _ (word claimed) w at_claimed
              (omega arith) s1 s2,
          from_bytes_be-word num eth claimed (omega arith),
          le→leb claimed 18446744073709551615 (omega arith),
        )
        (rw
          (
            (==_iff m m).1 refl,
            s4,
            read_members_lem cs m m 0 entries w v refl (omega arith) (omega arith)
                (valset_words-at o1 o2 entries claimed),
          )
          refl)
