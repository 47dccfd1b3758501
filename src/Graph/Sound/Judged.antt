-- ===== src/Graph/Sound/Judged.antt =====
-- What the judgement on a son keeps, and what two steps of the loop keep together.
use shinken_gpt.Prelude.{
  ℕ, ◌≡◌, ◌⊎◌, true, false, List, ◌∷◌, inl, inr, ◌==◌, contains, arith, Bool-cases, ==_iff, sym,
  subst,
}
use shinken_gpt.Graph.{Graph, Edge}
use shinken_gpt.Graph.Paths.{IsGrounded}
use shinken_gpt.Graph.Search.{
  LoopStatus, unchecked, temporary_checked, dfs_ok, near_loop, loop_inside, Tags, is_unchecked,
  judge_child,
}
use shinken_gpt.Graph.Sound.{
  kept, kept_root, is_open, is_settled, IsGood, IsScanned, judge_temporary, judge_trouble,
}

kept_trans : (a b c : LoopStatus) → kept a b ≡ true → kept b c ≡ true → kept a c ≡ true
kept_trans a b c h k = ground arith

kept_root_trans :
    (a b c : LoopStatus) → kept_root a b ≡ true → kept_root b c ≡ true → kept_root a c ≡ true
kept_root_trans a b c h k = ground arith

pub kept→kept_root : (a b : LoopStatus) → kept a b ≡ true → kept_root a b ≡ true
kept→kept_root a b h = ground arith

pub kept-open : (a b : LoopStatus) → is_open a ≡ true → kept_root a b ≡ true → is_open b ≡ true
kept-open a b h k = ground arith

kept_root-temporary :
    (a b : LoopStatus)
    → is_open a ≡ true
    → kept_root a b ≡ true
    → b ≡ temporary_checked
    → a ≡ temporary_checked
kept_root-temporary a b o h k = ground arith

pub kept-Fewer :
    (a b : LoopStatus) → kept a b ≡ true → is_unchecked b ≡ true → is_unchecked a ≡ true
kept-Fewer a b h k = ground arith

pub kept_refl : (a : LoopStatus) → kept a a ≡ true
kept_refl a = ground arith

pub first_or_rest :
    (c x : ℕ) (cs : List ℕ) → contains x (c ∷ cs) ≡ true → (x ≡ c) ⊎ (contains x cs ≡ true)
first_or_rest c x cs h = elim (Bool-cases (c == x)) [
  | inl e ↦ inl (sym ((==_iff c x).0 e))
  | inr n ↦ inr (ground arith)
]

-- What the search below a node has done.
pub record IsSearched (g : Graph) (root : ℕ) (t t' : Tags) : Type 0 where
  pub keeps : (x : ℕ) → kept (t x) (t' x) ≡ true
  pub good : IsGood g t'
  pub settled : is_settled (t' root) ≡ true

-- The judgement on a son that has been looked at, by the tag it has.
pub judge-IsScanned :
    (g : Graph) (root c : ℕ) (edge : Edge g root c) (t : Tags)
    → IsGood g t
    → is_open (t root) ≡ true
    → (s : LoopStatus) → t c ≡ s
    → is_unchecked s ≡ false
    → IsScanned g root (λ x. x ≡ c) t (judge_child root c s t)
unfolding judge_child
judge-IsScanned g root c edge t good o unchecked e u = cc
judge-IsScanned g root c edge t good o temporary_checked e u =
    judge_temporary g root c edge t good o e
judge-IsScanned g root c edge t good o dfs_ok e u = record {
  keeps = λ x n. ground arith;
  keeps_root = ground arith;
  good = good;
  grounded = λ x p h. subst (λ y. IsGrounded g y) (sym p) (good.grounded c e);
}
judge-IsScanned g root c edge t good o near_loop e u =
    judge_trouble g root c edge t good o (ground arith)
judge-IsScanned g root c edge t good o loop_inside e u =
    judge_trouble g root c edge t good o (ground arith)

pub IsScanned-twice :
    (g : Graph) (root : ℕ) (P Q R : ℕ → Type 0) (t u v : Tags)
    → is_open (t root) ≡ true
    → ((c : ℕ) → R c → P c ⊎ Q c)
    → IsScanned g root P t u
    → IsScanned g root Q u v
    → IsScanned g root R t v
IsScanned-twice g root P Q R t u v o split p q = record {
  keeps = λ x n. kept_trans (t x) (u x) (v x) (p.keeps x n) (q.keeps x n);
  keeps_root = kept_root_trans (t root) (u root) (v root) p.keeps_root q.keeps_root;
  good = q.good;
  grounded = λ c r h. elim (split c r) [
    | inl pc ↦ p.grounded c pc (
        kept_root-temporary (u root) (v root) (kept-open (t root) (u root) o p.keeps_root)
          q.keeps_root h)
    | inr qc ↦ q.grounded c qc h
  ];
}

pub IsSearched-IsScanned :
    (g : Graph) (root c : ℕ) (t t' : Tags) → IsSearched g c t t' → IsScanned g root (λ x. ⊥) t t'
IsSearched-IsScanned g root c t t' s = record {
  keeps = λ x n. s.keeps x;
  keeps_root = kept→kept_root (t root) (t' root) (s.keeps root);
  good = s.good;
  grounded = λ x p h. absurd p;
}
