-- ===== src/Http/Options/Order.antt =====
-- The order of the options' urls, and the urls that start another one.
use lib_abk.Common.{◌<◌, ◌≡◌, refl, arith, true, ◌∷◌, [], ◌==◌, Bytes, lt, gt, length}
use lib_abk.Server.Dispatch.{strcmp}
use lib_abk.Http.Text.{starts}

-- A text is not behind the texts that it starts.
pub starts-not_gt : (p url : Bytes) → starts ◌==◌ p url ≡ true → ¬ (strcmp p url ≡ gt)
starts-not_gt [] [] h = cc
starts-not_gt [] (y ∷ url) h = cc
starts-not_gt (x ∷ p) (y ∷ url) h = ground (arith, starts-not_gt p url)
starts-not_gt (x ∷ p) [] h = cc

-- Of two starts of a text the earlier one is the shorter one.
pub starts-shorter :
    (p q url : Bytes)
    → starts ◌==◌ p url ≡ true
    → starts ◌==◌ q url ≡ true
    → strcmp p q ≡ lt
    → length p < length q
starts-shorter [] (y ∷ q) url h k l = omega arith
starts-shorter [] [] url h k l = cc
starts-shorter (x ∷ p) [] url h k l = cc
starts-shorter (x ∷ p) (y ∷ q) (z ∷ url) h k l = ground (arith, starts-shorter p q url)
starts-shorter (x ∷ p) (y ∷ q) [] h k l = cc

-- What stands in front of a start of a text stands in front of the text.
pub starts-lt : (p url o : Bytes) → starts ◌==◌ p url ≡ true → strcmp o p ≡ lt → strcmp o url ≡ lt
starts-lt [] url [] h l = cc
starts-lt [] url (z ∷ o) h l = cc
starts-lt (x ∷ p) (y ∷ url) [] h l = refl
starts-lt (x ∷ p) (y ∷ url) (z ∷ o) h l = ground (arith, starts-lt p url o)
starts-lt (x ∷ p) [] o h l = cc
