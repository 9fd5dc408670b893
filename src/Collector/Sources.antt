-- ===== src/Collector/Sources.antt =====
-- About `_parse_real_sources`: what is protected of the mounted filesystems.
use drive_sanitization_manag.Prelude.{
  err, ◌∙◌, Bool-cases, inl, inr, length, select, Option, none, some, codes, has_text, ◌&&◌, not,
  String, ◌≡◌, refl, sym, ap, subst, Bool, true, false, List, [], ◌∷◌, member, same_texts, All,
  ◌==◌, eq_iff, eq_refl, arith, ok, >>=-eq-ok, >>-eq-ok, ok_inj, guard, guard-eq-ok, if◌then◌else◌,
}
use drive_sanitization_manag.Value.{
  Value, null, bool, int, text, arr, obj, opaque, Fields, Items, nil, cons, list_items, has_key,
}
use drive_sanitization_manag.Platform.{Platform}
use drive_sanitization_manag.Discovery.Parse.{get}
use drive_sanitization_manag.Collector.{
  CollectionError, pair_of, real_entry, entry_invalid, not_flat, is_optional_text, not_an_array,
  roots_disagree, json_object, array, in_family, real_entries, roots_of, critical_of,
  parse_real_sources,
}

-- An entry of the listing is covered: the root is the one that was observed, and a source that is mounted
-- on a critical target is among the critical ones.
abbrev pub Covered : String → List String → String × String → Type 0
Covered root critical (target, source) =
    (target ≡ "/" → source ≡ root) × (in_family target ≡ true → member source critical ≡ true)

same_texts_one :
    (xs : List String) (root : String) → same_texts xs (root ∷ []) ≡ true → xs ≡ root ∷ []
same_texts_one [] root h = cc
same_texts_one (x ∷ []) root h = ap (λ y. y ∷ []) ((eq_iff x root).0 (ground arith))
same_texts_one (x ∷ y ∷ xs) root h = ground arith

member-critical :
    (b : Bool) (x s : String) (rest : List String)
    → member s rest ≡ true
    → member s (if b then x ∷ rest else rest) ≡ true
member-critical true x s rest h = ground arith
member-critical false x s rest h = h

root_first :
    (b : Bool) (s root : String) (rest : List String)
    → All (λ x. x ≡ root) (if b then s ∷ rest else rest)
    → (b ≡ true → s ≡ root) × All (λ x. x ≡ root) rest
root_first true s root rest h = (λ e. h.0, h.1)
root_first false s root rest h = (λ e. cc, h)

critical_first :
    (b : Bool) (s : String) (rest : List String)
    → b ≡ true
    → member s (if b then s ∷ rest else rest) ≡ true
critical_first true s rest h = let same = eq_refl s in ground arith
critical_first false s rest h = cc

weaker :
    (root x : String) (b : Bool) (critical : List String) (pairs : List (String × String))
    → All (Covered root critical) pairs
    → All (Covered root (if b then x ∷ critical else critical)) pairs
weaker root x b critical [] h = tt
weaker root x b critical ((t, s) ∷ pairs) ((r, m), h) =
    ((r, λ f. member-critical b x s critical (m f)), weaker root x b critical pairs h)

covered :
    (root : String) (pairs : List (String × String))
    → All (λ x. x ≡ root) (roots_of pairs)
    → All (Covered root (critical_of pairs)) pairs
covered root [] h = tt
covered root ((t, s) ∷ pairs) h =
    let (first, others) = root_first (t == "/") s root (roots_of pairs) h in
    (
      (λ e. first ((eq_iff t "/").1 e), λ f. critical_first (in_family t) s (critical_of pairs) f),
      weaker root s (in_family t) (critical_of pairs) pairs (covered root pairs others),
    )

-- An entry of the array: an object without children, whose target and source are texts, with Covered.
abbrev pub EntryCovered : String → List String → Value → Type 0
EntryCovered root critical v =
    (fs : Fields) × (target : String) × (source : String) × (v ≡ obj fs)
    × (has_key "children" fs ≡ false)
    × (get "target" fs ≡ text target)
    × (get "source" fs ≡ text source)
    × Covered root critical (target, source)

-- The entry of the root directory.
abbrev pub is_root : Value → Bool
is_root (obj fs) = elim (get "target" fs) [ text t ↦ t == "/" | _ ↦ false ]
is_root _ = false

abbrev Read : Value → String × String → Type 0
Read v (target, source) =
    (fs : Fields) × (v ≡ obj fs)
    × (has_key "children" fs ≡ false)
    × (get "target" fs ≡ text target)
    × (get "source" fs ≡ text source)

pair_if :
    (b : Bool) (t s : String) (pair : String × String)
    → (if b then ok (t, s) else err entry_invalid) ≡ ok pair
    → (t, s) ≡ pair
pair_if true t s pair h = ok_inj h
pair_if false t s pair h = cc

pair_of-texts :
    (v w : Value) (target source : String)
    → pair_of v w ≡ ok (target, source)
    → (v ≡ text target) × (w ≡ text source)
pair_of-texts (text t) (text s) target source h =
    let same = pair_if (has_text (codes t) && has_text (codes s)) t s (target, source) h in
    (ap (λ x. text x.0) same, ap (λ x. text x.1) same)
pair_of-texts (text t) null target source h = cc
pair_of-texts (text t) (bool b) target source h = cc
pair_of-texts (text t) (int n) target source h = cc
pair_of-texts (text t) (arr vs) target source h = cc
pair_of-texts (text t) (obj fs) target source h = cc
pair_of-texts (text t) (opaque n) target source h = cc
pair_of-texts null w target source h = cc
pair_of-texts (bool b) w target source h = cc
pair_of-texts (int n) w target source h = cc
pair_of-texts (arr vs) w target source h = cc
pair_of-texts (obj fs) w target source h = cc
pair_of-texts (opaque n) w target source h = cc

real_entry-Read : (v : Value) (pair : String × String) → real_entry v ≡ ok pair → Read v pair
unfolding real_entry
real_entry-Read (obj fs) (target, source) h =
    let (flat, h₁) = >>-eq-ok (guard (not (has_key "children" fs)) not_flat) _ h in
    let (pair, read, h₂) = >>=-eq-ok (pair_of (get "target" fs) (get "source" fs)) _ h₁ in
    let (_, h₃) = >>-eq-ok (guard (is_optional_text (get "fstype" fs)) entry_invalid) _ h₂ in
    let alone = guard-eq-ok (not (has_key "children" fs)) not_flat flat in
    let (t, s) = pair_of-texts (get "target" fs) (get "source" fs) target source (read ∙ h₃) in
    (fs, refl, ground arith, t, s)
real_entry-Read null pair h = cc
real_entry-Read (bool b) pair h = cc
real_entry-Read (int n) pair h = cc
real_entry-Read (text s) pair h = cc
real_entry-Read (arr vs) pair h = cc
real_entry-Read (opaque n) pair h = cc

Read-is_root : (v : Value) (t s : String) → Read v (t, s) → is_root v ≡ (t == "/")
Read-is_root v t s (fs, same, flat, target, source) =
    ap is_root same ∙ ap (λ w. elim w [ text x ↦ x == "/" | _ ↦ false ]) target

-- The entries are covered where their pairs are, and the root entries are the roots of the pairs.
entries :
    (root : String) (critical : List String) (vs : Items) (pairs : List (String × String))
    → real_entries vs ≡ ok pairs
    → All (Covered root critical) pairs
    → All (EntryCovered root critical) (list_items vs)
      × (length (select is_root (list_items vs)) ≡ length (roots_of pairs))
unfolding real_entries
entries root critical nil pairs h all = (tt, ap (λ x. length (roots_of x)) (ok_inj h))
entries root critical (cons v vs) pairs h all =
    let ((t, s), first, h₁) = >>=-eq-ok (real_entry v) _ h in
    let (rest, others, h₂) = >>=-eq-ok (real_entries vs) _ h₁ in
    let (here, below) = subst (All (Covered root critical)) (sym (ok_inj h₂)) all in
    let (covers, count) = entries root critical vs rest others below in
    let read = real_entry-Read v (t, s) first in
    let (fs, same, flat, target, source) = read in
    let rooted = Read-is_root v t s read in
    (
      ((fs, t, s, same, flat, target, source, here), covers),
      subst (λ x. length (select is_root (v ∷ list_items vs)) ≡ length (roots_of x)) (ok_inj h₂)
          (elim (Bool-cases (t == "/")) [
            | inl e ↦ rw (rooted, e, count) refl
            | inr e ↦ rw (rooted, e) count
          ]),
    )

json_object-some : (m : Option Value) (fs : Fields) → json_object m ≡ ok fs → m ≡ some (obj fs)
json_object-some (some (obj gs)) fs h = ap (λ x. some (obj x)) (ok_inj h)
json_object-some none fs h = cc
json_object-some (some null) fs h = cc
json_object-some (some (bool b)) fs h = cc
json_object-some (some (int n)) fs h = cc
json_object-some (some (text s)) fs h = cc
json_object-some (some (arr vs)) fs h = cc
json_object-some (some (opaque n)) fs h = cc

array-arr : (v : Value) (e : CollectionError) (vs : Items) → array v e ≡ ok vs → v ≡ arr vs
array-arr (arr ws) e vs h = ap arr (ok_inj h)
array-arr null e vs h = cc
array-arr (bool b) e vs h = cc
array-arr (int n) e vs h = cc
array-arr (text s) e vs h = cc
array-arr (obj fs) e vs h = cc
array-arr (opaque n) e vs h = cc

-- _parse_real_sources returns only where the captured document is an object whose "filesystems" is an
-- array of entries without children, with a text as target and as source, of which exactly one is
-- the root's. The source of the root's entry is then the one that was observed, and what is returned
-- has the source of every entry that is mounted on or below one of the critical directories.
pub parse_real_sources-Covered :
    (p : Platform) (captured : p.Bytes) (root : String) (critical : List String)
    → parse_real_sources p captured root ≡ ok critical
    → (fs : Fields) × (vs : Items) × (p.loads captured ≡ some (obj fs))
      × (get "filesystems" fs ≡ arr vs)
      × All (EntryCovered root critical) (list_items vs)
      × (length (select is_root (list_items vs)) ≡ 1)
unfolding parse_real_sources
parse_real_sources-Covered p captured root critical h =
    let (fs, loaded, h₁) = >>=-eq-ok (json_object (p.loads captured)) _ h in
    let (vs, listed, h₂) = >>=-eq-ok (array (get "filesystems" fs) not_an_array) _ h₁ in
    let (pairs, read, h₃) = >>=-eq-ok (real_entries vs) _ h₂ in
    let (one, h₄) =
      >>-eq-ok (guard (same_texts (roots_of pairs) (root ∷ [])) roots_disagree) _ h₃ in
    let root_only =
      same_texts_one (roots_of pairs) root
        (guard-eq-ok (same_texts (roots_of pairs) (root ∷ [])) roots_disagree one) in
    let all =
      subst (λ c. All (Covered root c) pairs) (ok_inj h₄)
        (covered root pairs (subst (All (λ x. x ≡ root)) (sym root_only) (refl, tt))) in
    let (covers, count) = entries root critical vs pairs read all in
    (
      fs,
      vs,
      json_object-some (p.loads captured) fs loaded,
      array-arr (get "filesystems" fs) not_an_array vs listed,
      covers,
      count ∙ ap length root_only,
    )
