-- ===== src/Metainfo/Path.antt =====
-- Which paths pass: the relative ones that cannot leave the directory they are put in.
use pipensx_video_downloader.Prelude.{
  ℕ, ◌<◌, ◌≡◌, ◌≢◌, ◌↔◌, refl, sym, ap, ◌∙◌, Bool, true, false, not, ◌&&◌, inl, inr, List, [], ◌∷◌,
  ◌++◌, Bytes, leb, ◌==◌, ==_iff, Bool-cases, length, arith,
}
use mathlib.Core.List.{append-nil}
use pipensx_video_downloader.Metainfo.{
  max_name_len, bad_component, scan_components, metainfo_path_is_safe,
}

-- Neither separator occurs.
abbrev plain : Bytes → Bool
plain [] = true
plain (c ∷ cs) = not (c == b'/') && not (c == b'\\') && plain cs

-- A name of one file or directory, but "." and "..".
pub record IsName (x : Bytes) : Type 0 where
  pub no_separator : plain x ≡ true
  pub not_empty : x ≢ []
  pub not_here : x ≢ b'.' ∷ []
  pub not_up : x ≢ b'.' ∷ b'.' ∷ []

abbrev pub AreNames : List Bytes → Type 0
AreNames [] = Unit {0}
AreNames (x ∷ xs) = IsName x × AreNames xs

-- The names with a slash between any two.
abbrev pub join : Bytes → List Bytes → Bytes
join x [] = x
join x (y ∷ ys) = x ++ (b'/' ∷ join y ys)

-- A relative path of proper names.
pub record IsRelative (path : Bytes) : Type 0 where
  pub first : Bytes
  pub others : List Bytes
  pub joined : path ≡ join first others
  pub first_name : IsName first
  pub other_names : AreNames others

bad_component_iff : (x : Bytes) → plain x ≡ true → (bad_component x ≡ false) ↔ IsName x
unfolding bad_component
bad_component_iff [] h = (λ e. cc e, λ n. absurd (n.not_empty refl))
bad_component_iff (c ∷ []) h = (
  λ e. record {
    no_separator = h;
    not_empty = λ q. cc q;
    not_up = λ q. cc q;
    not_here = λ q. (let same : c ≡ b'.' = cc q in ground arith);
  },
  λ n. elim (Bool-cases (c == b'.')) [
    | inl e ↦ absurd (n.not_here (ap (λ (x : ℕ). x ∷ []) ((==_iff c b'.').0 e)))
    | inr e ↦ e
  ],
)
bad_component_iff (c ∷ d ∷ []) h = (
  λ e. record {
    no_separator = h;
    not_empty = λ q. cc q;
    not_here = λ q. cc q;
    not_up = λ q. (let same : (c ≡ b'.') × (d ≡ b'.') = (cc q, cc q) in ground arith);
  },
  λ n. elim (Bool-cases (c == b'.' && d == b'.')) [
    | inl e ↦
        let same : (c ≡ b'.') × (d ≡ b'.') = ground arith in absurd (n.not_up (cc (same.0, same.1)))
    | inr e ↦ e
  ],
)
bad_component_iff (c ∷ d ∷ e ∷ x) h = (
  λ _. record { no_separator = h; not_empty = λ q. cc q; not_here = λ q. cc q; not_up = λ q. cc q },
  λ n. refl,
)

append-append : (xs : Bytes) (c : ℕ) (ys : Bytes) → (xs ++ (c ∷ [])) ++ ys ≡ xs ++ (c ∷ ys)
append-append [] c ys = refl
append-append (x ∷ xs) c ys = ap (◌∷◌ x) (append-append xs c ys)

plain-append :
    (xs : Bytes) (c : ℕ) → plain xs ≡ true → c ≢ b'/' → c ≢ b'\\' → plain (xs ++ (c ∷ [])) ≡ true
plain-append [] c h s b = ground arith
plain-append (x ∷ xs) c h s b = ground (arith, plain-append xs c)

scan_IsRelative :
    (component cs : Bytes)
    → plain component ≡ true
    → scan_components component cs ≡ true
    → IsRelative (component ++ cs)
unfolding scan_components
scan_IsRelative component [] h e = record {
  first = component;
  others = [];
  joined = append-nil component;
  first_name = (bad_component_iff component h).0 (ground arith);
  other_names = tt;
}
scan_IsRelative component (c ∷ cs) h e = elim (Bool-cases (c == b'\\')) [
  | inl b ↦ cc (rw b at e)
  | inr b ↦ elim (Bool-cases (c == b'/')) [
    | inl s ↦ elim (Bool-cases (bad_component component)) [
      | inl bad ↦ cc (rw (b, s, bad) at e)
      | inr ok ↦
          let r = scan_IsRelative [] cs refl (rw (b, s, ok) at e) in
          record {
            first = component;
            others = r.first ∷ r.others;
            joined =
                ap (λ (x : ℕ). component ++ (x ∷ cs)) ((==_iff c b'/').0 s)
                ∙ ap (λ (y : Bytes). component ++ (b'/' ∷ y)) r.joined;
            first_name = (bad_component_iff component h).0 ok;
            other_names = (r.first_name, r.other_names);
          }
    ]
    | inr s ↦
        let r =
          scan_IsRelative (component ++ (c ∷ [])) cs
            (plain-append component c h (ground arith) (ground arith)) (rw (b, s) at e) in
        rw⁻¹ (append-append component c cs) r
  ]
]

scan-append :
    (component x t : Bytes)
    → plain x ≡ true
    → scan_components component (x ++ t) ≡ scan_components (component ++ x) t
unfolding scan_components
scan-append component [] t h = ap (λ (y : Bytes). scan_components y t) (sym (append-nil component))
scan-append component (c ∷ x) t h =
    let parts : ((c == b'/') ≡ false) × (((c == b'\\') ≡ false) × (plain x ≡ true)) =
      ground arith in
    rw (parts.1.0, parts.0)
      (scan-append (component ++ (c ∷ [])) x t parts.1.1
        ∙ ap (λ (y : Bytes). scan_components y t) (append-append component c x))

scan-join :
    (x : Bytes) (xs : List Bytes) → IsName x → AreNames xs → scan_components [] (join x xs) ≡ true
unfolding scan_components
scan-join x [] n ns =
    let ok = (bad_component_iff x n.no_separator).1 n in
    ap (λ (y : Bytes). scan_components [] y) (sym (append-nil x))
    ∙ scan-append [] x [] n.no_separator
    ∙ ground arith
scan-join x (y ∷ ys) n ns =
    let ok = (bad_component_iff x n.no_separator).1 n in
    scan-append [] x (b'/' ∷ join y ys) n.no_separator ∙ rw ok (scan-join y ys ns.0 ns.1)

relative_scans : (path : Bytes) → IsRelative path → scan_components [] path ≡ true
relative_scans path r = rw r.joined (scan-join r.first r.others r.first_name r.other_names)

-- A path that is scanned with success starts with no separator.
scan_first :
    (c : ℕ) (cs : Bytes)
    → scan_components [] (c ∷ cs) ≡ true
    → ((c == b'/') ≡ false) × ((c == b'\\') ≡ false)
unfolding scan_components bad_component
scan_first c cs h = ground arith

-- metainfo_path_is_safe accepts exactly the paths below MAX_NAME_LEN bytes that are names joined
-- by single slashes, where a name is not empty, is not "." or ".." and holds neither separator.
pub metainfo_path_is_safe_iff :
    (path : Bytes)
    → (metainfo_path_is_safe path ≡ true) ↔ (IsRelative path × (length path < max_name_len))
unfolding metainfo_path_is_safe scan_components bad_component
metainfo_path_is_safe_iff [] = (λ e. cc e, λ r. cc (relative_scans [] r.0))
metainfo_path_is_safe_iff (c ∷ cs) = (
  λ e. (scan_IsRelative [] (c ∷ cs) refl (ground arith), ground arith),
  λ r.
      (let scans = relative_scans (c ∷ cs) r.0 in
        let first = scan_first c cs scans in
        let short : leb max_name_len (length (c ∷ cs)) ≡ false = ground arith in
        rw (first.0, first.1, short) (rw (first.1, first.0) at scans)),
)
