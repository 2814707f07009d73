-- ===== src/Registry/Pages.antt =====
-- Listing the registry page by page.
use redstone_oracles_monorep.Prelude.{
  ℕ, zero, suc, ◌+◌, ◌*◌, ◌-◌, ◌≤◌, String, Option, none, some, List, [], ◌++◌, ◌≡◌, refl, ap, ◌∙◌,
  arith, ℤ, pos, negsuc, length, take, drop, take-add, take_all, any, any-take, any-drop, Bool,
  true,
}
use redstone_oracles_monorep.Prelude.Dict.{Dict, keys}
use redstone_oracles_monorep.Registry.State.{ListInputData}
use redstone_oracles_monorep.Registry.Common.{nonzero, skip_to, cut_at, list_with_pagination}

-- The request for the `size` keys from position `start` on.
abbrev pub page : ℕ → ℕ → Option ListInputData
page start size = some (record { limit = some (pos size); start_after = some (pos start) })

skip_to-nonzero : (n : ℕ) (xs : List String) → skip_to (nonzero (some (pos n))) xs ≡ drop n xs
skip_to-nonzero zero xs = refl
skip_to-nonzero (suc n) xs = refl

page-take :
    {V : Type 0} (start size : ℕ) (d : Dict V)
    → list_with_pagination (page start (suc size)) d ≡ take (suc size) (drop start (keys d))
unfolding list_with_pagination
page-take start size d =
    rw skip_to-nonzero
      (ap (λ k. take k (drop start (keys d))) (let e : suc size - 0 ≡ suc size = omega arith in e))

-- The first `count` pages, one after the other.
abbrev pub pages : {V : Type 0} → ℕ → ℕ → Dict V → List String
pages zero size d = []
pages (suc count) size d = pages count size d ++ list_with_pagination (page (count * size) size) d

pages-take :
    {V : Type 0} (count size : ℕ) (d : Dict V)
    → pages count (suc size) d ≡ take (count * suc size) (keys d)
pages-take zero size d = ap (λ k. take k (keys d)) (let e : 0 ≡ zero * suc size = omega arith in e)
pages-take (suc count) size d =
    rw (pages-take count size d, page-take (count * suc size) size d)
      (rw (← take-add (count * suc size) (suc size) (keys d)) (
        ap (λ k. take k (keys d))
          (let e : count * suc size + suc size ≡ suc count * suc size = omega arith in e)))

-- Pages of a positive size, asked for one after the other until they hold as many places as there
-- are keys, list every key once, in the order of the registry.
pub pages-keys :
    {V : Type 0} (count size : ℕ) (d : Dict V)
    → length (keys d) ≤ count * suc size
    → pages count (suc size) d ≡ keys d
pages-keys count size d h = pages-take count size d ∙ take_all (count * suc size) (keys d) h

any-skip_to :
    (p : String → Bool) (n : Option ℤ) (xs : List String)
    → any p (skip_to n xs) ≡ true
    → any p xs ≡ true
any-skip_to p none xs h = h
any-skip_to p (some (pos n)) xs h = any-drop p n xs h
any-skip_to p (some (negsuc n)) xs h = any-drop p (length xs - suc n) xs h

any-cut_at :
    (p : String → Bool) (n : Option ℤ) (xs : List String)
    → any p (cut_at n xs) ≡ true
    → any p xs ≡ true
any-cut_at p none xs h = h
any-cut_at p (some (pos n)) xs h = any-take p (n - 0) xs h
any-cut_at p (some (negsuc n)) xs h = any-take p (length xs - suc n - 0) xs h
