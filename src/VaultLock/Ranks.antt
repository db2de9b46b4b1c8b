-- ===== src/VaultLock/Ranks.antt =====
-- Ranks are in a strict order, and locks with different ids have different ranks.
use op_ca.Prelude.{Text, ◌≡◌, ◌≢◌, refl, true, false, none, some, [], ◌∷◌, arith}
use op_ca.VaultLock.{Rank, text_less, time_less, time_same, rank_less}

text_less_trans :
    (x y z : Text) → text_less x y ≡ true → text_less y z ≡ true → text_less x z ≡ true
unfolding text_less
text_less_trans x y [] h k = absurd (cc k)
text_less_trans x [] (e ∷ z) h k = absurd (cc h)
text_less_trans [] (d ∷ y) (e ∷ z) h k = refl
text_less_trans (c ∷ x) (d ∷ y) (e ∷ z) h k = ground (arith, text_less_trans x y z)

text_less-asym : (x y : Text) → text_less x y ≡ true → text_less y x ≡ false
unfolding text_less
text_less-asym x [] h = absurd (cc h)
text_less-asym [] (d ∷ y) h = refl
text_less-asym (c ∷ x) (d ∷ y) h = ground (arith, text_less-asym x y)

text_less-total : (x y : Text) → x ≢ y → text_less x y ≡ false → text_less y x ≡ true
unfolding text_less
text_less-total [] [] n h = absurd (n refl)
text_less-total (c ∷ x) [] n h = refl
text_less-total [] (d ∷ y) n h = absurd (cc h)
text_less-total (c ∷ x) (d ∷ y) n h = ground (arith, text_less-total x y)

pub rank_less_trans :
    (p q r : Rank) → rank_less p q ≡ true → rank_less q r ≡ true → rank_less p r ≡ true
unfolding rank_less time_less time_same
rank_less_trans (none, x) (none, y) (none, z) h k = ground (arith, text_less_trans x y z)
rank_less_trans (none, x) (some b, y) (none, z) h k = absurd (cc k)
rank_less_trans (none, x) (q, y) (some c, z) h k = refl
rank_less_trans (some a, x) (none, y) r h k = absurd (cc h)
rank_less_trans (some a, x) (some b, y) (none, z) h k = absurd (cc k)
rank_less_trans (some a, x) (some b, y) (some c, z) h k = ground (arith, text_less_trans x y z)

pub rank_less-asym : (p q : Rank) → rank_less p q ≡ true → rank_less q p ≡ false
unfolding rank_less time_less time_same
rank_less-asym (none, x) (none, y) h = ground (arith, text_less-asym x y)
rank_less-asym (none, x) (some b, y) h = refl
rank_less-asym (some a, x) (none, y) h = absurd (cc h)
rank_less-asym (some a, x) (some b, y) h = ground (arith, text_less-asym x y)

pub rank_less-total : (p q : Rank) → p.1 ≢ q.1 → rank_less p q ≡ false → rank_less q p ≡ true
unfolding rank_less time_less time_same
rank_less-total (none, x) (none, y) n h = ground (arith, text_less-total x y n)
rank_less-total (none, x) (some b, y) n h = absurd (cc h)
rank_less-total (some a, x) (none, y) n h = refl
rank_less-total (some a, x) (some b, y) n h = ground (arith, text_less-total x y n)

text_less-split :
    (x y z : Text) → text_less x z ≡ true → text_less x y ≡ false → text_less y z ≡ true
unfolding text_less
text_less-split x y [] h k = absurd (cc h)
text_less-split x [] (e ∷ z) h k = refl
text_less-split [] (d ∷ y) (e ∷ z) h k = absurd (cc k)
text_less-split (c ∷ x) (d ∷ y) (e ∷ z) h k = ground (arith, text_less-split x y z)

pub rank_less-split :
    (p q r : Rank) → rank_less p r ≡ true → rank_less p q ≡ false → rank_less q r ≡ true
unfolding rank_less time_less time_same
rank_less-split (none, x) (none, y) (none, z) h k = ground (arith, text_less-split x y z)
rank_less-split (none, x) (none, y) (some c, z) h k = refl
rank_less-split (none, x) (some b, y) r h k = absurd (cc k)
rank_less-split (some a, x) q (none, z) h k = absurd (cc h)
rank_less-split (some a, x) (none, y) (some c, z) h k = refl
rank_less-split (some a, x) (some b, y) (some c, z) h k = ground (arith, text_less-split x y z)
