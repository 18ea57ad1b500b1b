-- ===== src/Bencode/Decode.antt =====
-- `be_decode` and `be_dict_get` on the texts of the grammar: a node holds its value and exactly the
-- bytes of its text, and a dictionary answers with the first entry under the key.
use pipensx_video_downloader.Prelude.{
  ℕ, suc, ◌≡◌, refl, ap, ◌∙◌, true, false, inl, inr, [], ◌∷◌, ◌++◌, Option, some, Bytes, ◌==◌,
  Bool-cases, take, arith, length-append, signed,
}
use pipensx_video_downloader.Prelude.Errors.{◌>>=◌, >>=-eq-some}
use mathlib.Core.List.{append_assoc}
use pipensx_video_downloader.Bencode.{
  BeValue, be_int, be_str, be_list, be_dict, BeNode, is_digit, parse_int, parse_str, be_skip,
  be_decode, be_max_depth, consumed, node,
}
use pipensx_video_downloader.Bencode.Grammar.{
  Tree, Trees, Entries, int, str, list, dict, nil, cons, end, entry, decimal, print_str, print,
  print_items, print_entries, Fits,
}
use pipensx_video_downloader.Bencode.Complete.{
  parse_int-print, parse_str-print, be_skip-print, take-length-append,
}
use pipensx_video_downloader.Bencode.Sound.{parse_int_sound, parse_str_sound, be_skip-Reads}

pub value_of : Tree → BeValue
value_of (int neg ds) = be_int (signed neg (decimal 0 ds))
value_of (str ds s) = be_str s
value_of (list ts) = be_list
value_of (dict es) = be_dict

unfoldable pub node_of : Tree → BeNode
unfolding value_of print
node_of t = record { value = value_of t; raw = print t [] }

print_str-append : (ds s r q : Bytes) → print_str ds s (r ++ q) ≡ print_str ds s r ++ q
print_str-append ds s r q = simp append_assoc

mutual
  unfolding print

  print-append : (t : Tree) (r q : Bytes) → print t (r ++ q) ≡ print t r ++ q
  print-append (int true ds) r q = simp append_assoc
  print-append (int false ds) r q = simp append_assoc
  print-append (str ds s) r q = print_str-append ds s r q
  print-append (list ts) r q = ap (◌∷◌ b'l') (print_items-append ts (b'e' ∷ r) q)
  print-append (dict es) r q = ap (◌∷◌ b'd') (print_entries-append es (b'e' ∷ r) q)

  print_items-append : (ts : Trees) (r q : Bytes) → print_items ts (r ++ q) ≡ print_items ts r ++ q
  print_items-append nil r q = refl
  print_items-append (cons t ts) r q =
      ap (print t) (print_items-append ts r q) ∙ print-append t (print_items ts r) q

  print_entries-append :
      (es : Entries) (r q : Bytes) → print_entries es (r ++ q) ≡ print_entries es r ++ q
  print_entries-append end r q = refl
  print_entries-append (entry ds k t es) r q =
      ap (λ x. print_str ds k (print t x)) (print_entries-append es r q)
      ∙ ap (print_str ds k) (print-append t (print_entries es r) q)
      ∙ print_str-append ds k (print t (print_entries es r)) q

pub print_split : (t : Tree) (rest : Bytes) → print t rest ≡ print t [] ++ rest
print_split t rest = print-append t [] rest

pub consumed-print : (t : Tree) (rest : Bytes) → consumed (print t rest) rest ≡ print t []
consumed-print t rest = rw (print_split t rest) (
    ap (λ (n : ℕ). take n (print t [] ++ rest)) (omega (arith, length-append (print t []) rest))
    ∙ take-length-append (print t []) rest)

-- A node of the right value, whose bytes are measured by what is left.
node_path :
    (t : Tree) (v : BeValue) (p rest : Bytes)
    → v ≡ value_of t
    → p ≡ print t rest
    → node v p rest ≡ (node_of t, rest)
unfolding node_of
node_path t v p rest e f = rw (e, f, consumed-print t rest)

-- be_decode of the text of a tree within the cap returns the tree's node, whose raw bytes are
-- exactly that text, and what stands behind it.
pub be_decode-print :
    (t : Tree) (rest : Bytes)
    → Fits (suc be_max_depth) t
    → be_decode (print t rest) ≡ some (node_of t, rest)
unfolding be_decode print value_of
be_decode-print (int neg ds) rest h =
    rw (parse_int-print neg ds rest h) (ap some (node_path (int neg ds) _ _ rest refl refl))
be_decode-print (str [] s) rest h = absurd (h.0.1 refl)
be_decode-print (str (c ∷ cs) s) rest h = ground (
  arith,
  parse_str-print (c ∷ cs) s rest h,
  node_path (str (c ∷ cs) s) (be_str s) (print_str (c ∷ cs) s rest) rest refl refl,
)
be_decode-print (list ts) rest h =
    rw (be_skip-print (suc be_max_depth) (list ts) rest h)
      (ap some (node_path (list ts) _ _ rest refl refl))
be_decode-print (dict es) rest h =
    rw (be_skip-print (suc be_max_depth) (dict es) rest h)
      (ap some (node_path (dict es) _ _ rest refl refl))

-- What a decoded value is: a tree within the cap, its node, and the text in front of what is left.
pub record Decoded (p : Bytes) (nd : BeNode) (rest : Bytes) : Type 0 where
  pub tree : Tree
  pub fits : Fits (suc be_max_depth) tree
  pub splits : p ≡ print tree rest
  pub is_node : nd ≡ node_of tree

decoded :
    (t : Tree) (v : BeValue) {p q rest : Bytes} {nd : BeNode}
    → Fits (suc be_max_depth) t
    → v ≡ value_of t
    → p ≡ print t q
    → ◌≡◌ {A = Option (BeNode × Bytes)} (some (node v p q)) (some (nd, rest))
    → Decoded p nd rest
decoded t v {p} {q} {rest} {nd} h e f g =
    let e1 : nd ≡ (node v p q).0 = ground arith in
    let e2 : q ≡ rest = ground arith in
    record {
      tree = t;
      fits = h;
      splits = f ∙ ap (print t) e2;
      is_node = e1 ∙ ap (λ x. x.0) (node_path t v p q e f);
    }

skipped :
    (v : BeValue) (p : Bytes) {nd : BeNode} {rest : Bytes}
    → ((t : Tree) (q : Bytes) → p ≡ print t q → Fits (suc be_max_depth) t → v ≡ value_of t)
    → ◌>>=◌ {B = BeNode × Bytes} (be_skip (suc be_max_depth) p) (λ q. some (node v p q))
      ≡ some (nd, rest)
    → Decoded p nd rest
skipped v p kind h =
    let (q, hq, e) = >>=-eq-some (be_skip (suc be_max_depth) p) _ h in
    let r = be_skip-Reads (suc be_max_depth) p q hq in
    decoded r.tree v r.fits (kind r.tree q r.splits r.fits) r.splits e

kind_list :
    (c : ℕ) (cs : Bytes)
    → c ≡ b'l'
    → (t : Tree) (q : Bytes) → c ∷ cs ≡ print t q
    → Fits 17 t
    → be_list ≡ value_of t
unfolding print value_of
kind_list c cs e (int neg ds) q f h = absurd (ground arith)
kind_list c cs e (str [] s) q f h = absurd (h.0.1 refl)
kind_list c cs e (str (x ∷ xs) s) q f h = absurd (ground arith)
kind_list c cs e (list ts) q f h = refl
kind_list c cs e (dict es) q f h = absurd (ground arith)

kind_dict :
    (c : ℕ) (cs : Bytes)
    → c ≡ b'd'
    → (t : Tree) (q : Bytes) → c ∷ cs ≡ print t q
    → Fits 17 t
    → be_dict ≡ value_of t
unfolding print value_of
kind_dict c cs e (int neg ds) q f h = absurd (ground arith)
kind_dict c cs e (str [] s) q f h = absurd (h.0.1 refl)
kind_dict c cs e (str (x ∷ xs) s) q f h = absurd (ground arith)
kind_dict c cs e (list ts) q f h = absurd (ground arith)
kind_dict c cs e (dict es) q f h = refl

int_Decoded :
    (p : Bytes) {nd : BeNode} {rest : Bytes}
    → ◌>>=◌ {B = BeNode × Bytes} (parse_int p) (λ r. some (node (be_int r.0) p r.1))
      ≡ some (nd, rest)
    → Decoded p nd rest
unfolding print value_of
int_Decoded p h =
    let (r, hr, e) = >>=-eq-some (parse_int p) _ h in
    let t = parse_int_sound p hr in
    decoded (int t.neg t.ds) (be_int r.0) t.number (ap be_int t.value) t.splits e

str_Decoded :
    (p : Bytes) {nd : BeNode} {rest : Bytes}
    → ◌>>=◌ {B = BeNode × Bytes} (parse_str p) (λ r. some (node (be_str r.0) p r.1))
      ≡ some (nd, rest)
    → Decoded p nd rest
unfolding print value_of
str_Decoded p h =
    let (r, hr, e) = >>=-eq-some (parse_str p) _ h in
    let t = parse_str_sound p hr in decoded (str t.ds r.0) (be_str r.0) t.text refl t.splits e

-- Whatever be_decode accepts is the text of a tree within the cap, and the node is that tree's.
pub be_decode-Decoded :
    (p : Bytes) {nd : BeNode} {rest : Bytes} → be_decode p ≡ some (nd, rest) → Decoded p nd rest
unfolding be_decode
be_decode-Decoded [] h = cc
be_decode-Decoded (c ∷ cs) h = elim (Bool-cases (c == b'i')) [
  | inl e ↦ int_Decoded (c ∷ cs) (ground arith)
  | inr i ↦ elim (Bool-cases (is_digit c)) [
    | inl e ↦ str_Decoded (c ∷ cs) (ground arith)
    | inr d ↦ elim (Bool-cases (c == b'l')) [
      | inl e ↦ skipped be_list (c ∷ cs) (kind_list c cs (ground arith)) (ground arith)
      | inr l ↦ skipped be_dict (c ∷ cs) (kind_dict c cs (ground arith)) (ground arith)
    ]
  ]
]
