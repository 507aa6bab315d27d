-- ===== src/Valset/Power/Distance.antt =====
-- `power_diff` against the distance of two assignments of powers to addresses.
use minter_hub.Dict.{HashSet, contains, difference, intersection, symmetric_difference}
use minter_hub.Outcome.{ok}
use minter_hub.Prelude.{List, [], ap, arith, some, true, ℕ, ◌+◌, ◌<◌, ◌∙◌, ◌∷◌, ◌≡◌}
use minter_hub.Valset.{EthAddress, Valset, ValsetMember, to_hashmap, to_hashset}
use minter_hub.Valset.Power.{abs_diff, lone_power, sum_lone, sum_shared, total_power_diff}
use minter_hub.Valset.Power.Maps.{contains-to_hashset, has, last_power, lookup-to_hashmap, power_at}
use minter_hub.Valset.Power.Sums.{
  contains-append, contains-difference, contains-head, contains-intersection, contains-tail,
  sum_over, sum_over-append, sum_over-split, union,
}
use minter_hub.Words.{add_u64}

-- The difference of the powers of one address in two sets.
abbrev pub gap : Valset → Valset → EthAddress → ℕ
gap v w k = abs_diff (power_at v.members k) (power_at w.members k)

-- The difference of two sets over the addresses that they hold between them.
abbrev pub distance : Valset → Valset → ℕ
distance v w = sum_over (gap v w) (union (to_hashset v) (to_hashset w))

pub last_power_of_has :
    (members : List ValsetMember) (k : EthAddress)
    → has members k ≡ true
    → last_power members k ≡ some (power_at members k)
last_power_of_has members k h = ground arith

-- The sum of the two loops.
sum_over-parts :
    (f : ℕ → ℕ) (s t : HashSet)
    → sum_over f (symmetric_difference s t) + sum_over f (intersection s t) ≡ sum_over f (union s t)
sum_over-parts f s t = omega (
  arith,
  sum_over-append f (difference s t) (difference t s),
  sum_over-append f s (difference t s),
  sum_over-split f s t,
)

module _ (v w : Valset) where
  lone_power_lem :
      (k : EthAddress)
      → contains k (symmetric_difference (to_hashset v) (to_hashset w)) ≡ true
      → lone_power (last_power v.members k) (last_power w.members k) ≡ some (gap v w k)
  lone_power_lem k m =
      let s = to_hashset v in
      let t = to_hashset w in
      ground (
        arith,
        contains-append k (difference s t) (difference t s),
        contains-difference k s t,
        contains-difference k t s,
        contains-to_hashset k v,
        contains-to_hashset k w,
      )

  shared_lem :
      (k : EthAddress)
      → contains k (intersection (to_hashset v) (to_hashset w)) ≡ true
      → (has v.members k ≡ true) × (has w.members k ≡ true)
  shared_lem k m = ground (
    arith,
    contains-intersection k (to_hashset v) (to_hashset w),
    contains-to_hashset k v,
    contains-to_hashset k w,
  )

module _ {E : Type 0} (v w : Valset) where
  sum_lone_lem :
      (items : HashSet) (total : ℕ)
      → ((k : EthAddress)
          → contains k items ≡ true
          → lone_power (last_power v.members k) (last_power w.members k) ≡ some (gap v w k))
      → total + sum_over (gap v w) items < 18446744073709551616
      → sum_lone {E = E} (to_hashmap v) (to_hashmap w) items total
        ≡ ok (total + sum_over (gap v w) items)
  unfolding sum_lone
  sum_lone_lem [] total h b = ground arith
  sum_lone_lem (k ∷ rest) total h b =
      let e : add_u64 total (gap v w k) ≡ total + gap v w k = omega arith in
      rw (lookup-to_hashmap k v, lookup-to_hashmap k w, h k (contains-head k rest), e)
        (sum_lone_lem rest (total + gap v w k) (λ j m. h j (contains-tail j k rest m)) (omega arith)
          ∙ ap ok (omega arith))

  sum_shared_lem :
      (items : HashSet) (total : ℕ)
      → ((k : EthAddress)
          → contains k items ≡ true
          → (has v.members k ≡ true) × (has w.members k ≡ true))
      → total + sum_over (gap v w) items < 18446744073709551616
      → sum_shared {E = E} (to_hashmap v) (to_hashmap w) items total
        ≡ ok (total + sum_over (gap v w) items)
  unfolding sum_shared
  sum_shared_lem [] total h b = ground arith
  sum_shared_lem (k ∷ rest) total h b =
      let (in_v, in_w) = h k (contains-head k rest) in
      let e : add_u64 total (gap v w k) ≡ total + gap v w k = omega arith in
      rw
        (
          lookup-to_hashmap k v,
          lookup-to_hashmap k w,
          last_power_of_has v.members k in_v,
          last_power_of_has w.members k in_w,
          e,
        )
        (sum_shared_lem rest (total + gap v w k) (λ j m. h j (contains-tail j k rest m))
            (omega arith)
          ∙ ap ok (omega arith))

  pub total_power_diff_lem :
      distance v w < 18446744073709551616 → total_power_diff {E = E} v w ≡ ok (distance v w)
  unfolding total_power_diff
  total_power_diff_lem b =
      let s = to_hashset v in
      let t = to_hashset w in
      let parts = sum_over-parts (gap v w) s t in
      rw (sum_lone_lem (symmetric_difference s t) 0 (lone_power_lem v w) (omega arith)) (
        sum_shared_lem (intersection s t) (0 + sum_over (gap v w) (symmetric_difference s t))
          (shared_lem v w) (omega arith)
        ∙ ap ok (omega arith))
