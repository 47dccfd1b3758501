-- ===== src/Scheduler/Resolve.antt =====
-- The loop of `consume_results` that releases the checks that wait for one that is done: no
-- ValueError, and no check is left that has to resolve a dependency.
use shinken_gpt.Prelude.{
  ℕ, ◌≤◌, ◌≡◌, ◌≢◌, refl, ap, ◌∙◌, ◌⊎◌, inl, inr, true, false, some, List, [], ◌∷◌, contains, arith,
  ◌==◌, All, Bool-cases, ◌>>=◌,
}
use shinken_gpt.SchedulingItem.Types.{zombie}
use shinken_gpt.SchedulingItem.World.{World}
use shinken_gpt.SchedulingItem.Consume.{set_check, set_status}
use shinken_gpt.Scheduler.{is_zombie, is_havetoresolvedep, remove, release, resolve_one, resolve}
use shinken_gpt.Scheduler.Links.{waited_for_by, is_linked, waited_for_by-keeps}

remove-found :
    (a : ℕ) (xs : List ℕ)
    → contains a xs ≡ true
    → (ys : List ℕ) × (remove a xs ≡ some ys)
      × ((d : ℕ) → d ≢ a → contains d xs ≡ true → contains d ys ≡ true)
unfolding remove
remove-found a [] h = cc
remove-found a (x ∷ xs) h = elim (Bool-cases (x == a)) [
  | inl e ↦ (xs, ground (arith, e), λ d n k. ground (arith, e, n, k))
  | inr e ↦
      (let (ys, found, rest) = remove-found a xs (ground (arith, h, e)) in
        (x ∷ ys, ground (arith, e, found), λ d n k. ground (arith, k, rest d n)))
]

-- The statuses stay, but for that of a check that became a zombie, and so do the links.
pub record Resolves (w w' : World) : Type 0 where
  pub next_id : w'.next_id ≡ w.next_id
  pub status :
      (d : ℕ) → ((w'.checks d).status ≡ (w.checks d).status) ⊎ ((w'.checks d).status ≡ zombie)
  pub linked : (d : ℕ) → is_linked w d ≡ true → is_linked w' d ≡ true

Resolves-refl : (w : World) → Resolves w w
Resolves-refl w = record { next_id = refl; status = λ d. inl refl; linked = λ d h. h }

Resolves-trans : {w w' w'' : World} → Resolves w w' → Resolves w' w'' → Resolves w w''
Resolves-trans {w} {w'} {w''} p q = record {
  next_id = q.next_id ∙ p.next_id;
  status = λ d. ground (arith, p.status d, q.status d);
  linked = λ d h. q.linked d (p.linked d h);
}

-- `w'` is `w`, but that no check waits for `c` any more, if one did.
record Releases (c : ℕ) (w w' : World) : Type 0 where
  next_id : w'.next_id ≡ w.next_id
  same :
      (e : ℕ)
      → ((w'.checks e).status ≡ (w.checks e).status)
        × ((w'.checks e).depend_on_me ≡ (w.checks e).depend_on_me)
  waits :
      (d e : ℕ)
      → d ≢ c
      → contains d (w.checks e).depend_on ≡ true
      → contains d (w'.checks e).depend_on ≡ true

release-found :
    (c : ℕ) (ds : List ℕ) (w : World)
    → waited_for_by w c ds ≡ true
    → (w' : World) × (release c ds w ≡ some w') × Releases c w w'
unfolding release
release-found c [] w h =
    (w, refl, record { next_id = refl; same = λ e. (refl, refl); waits = λ d e n k. k })
release-found c (d ∷ []) w h =
    let (ys, found, rest) = remove-found c (w.checks d).depend_on (ground (arith, h)) in
    (
      set_check d (λ k. record k { depend_on = ys }) w,
      ap (λ o. o >>= (λ ys. some (set_check d (λ k. record k { depend_on = ys }) w))) found,
      record {
        next_id = refl;
        same = λ e. (ground arith, ground arith);
        waits = λ j e n k. ground (arith, k, rest j n);
      },
    )
release-found c (_ ∷ _ ∷ _) w h = cc

module _ (c : ℕ) (w w' : World) (r : Releases c w w') where
  abbrev gone : World
  gone = set_check c (set_status zombie) w'

  gone-linked : (d : ℕ) → is_linked w d ≡ true → is_linked gone d ≡ true
  gone-linked d l = elim (Bool-cases (d == c)) [
    | inl e ↦ ground (arith, e)
    | inr e ↦ elim (Bool-cases (is_zombie (w.checks d).status)) [
      | inl z ↦ ground (arith, e, z, r.same d)
      | inr z ↦
          (let waits : waited_for_by w d (w.checks d).depend_on_me ≡ true = ground (arith, z, l) in
            let known : w.next_id ≤ gone.next_id = ground (arith, r.next_id) in
            let waits' =
              waited_for_by-keeps w gone d (w.checks d).depend_on_me known
                (λ f i j. ground (arith, r.waits d f (ground (arith, e)) j)) waits in
            ground (arith, e, r.same d, waits'))
    ]
  ]

  gone-Resolves : Resolves w gone
  gone-Resolves = record {
    next_id = r.next_id;
    status = λ d. ground (arith, r.same d);
    linked = gone-linked;
  }

resolve_one-found :
    (c : ℕ) (w : World)
    → is_linked w c ≡ true
    → (w' : World) × (resolve_one c w ≡ some w')
      × Resolves w w'
      × (is_havetoresolvedep (w'.checks c).status ≡ false)
unfolding resolve_one
resolve_one-found c w l = elim (Bool-cases (is_havetoresolvedep (w.checks c).status)) [
  | inl e ↦
      (let (w', found, r) = release-found c (w.checks c).depend_on_me w (ground (arith, e, l)) in
        (gone c w w' r, ground (arith, e, found), gone-Resolves c w w' r, ground arith))
  | inr e ↦ (w, ground (arith, e), Resolves-refl w, e)
]

stays_resolved :
    {w w' : World}
    → Resolves w w'
    → (c : ℕ) → is_havetoresolvedep (w.checks c).status ≡ false
    → is_havetoresolvedep (w'.checks c).status ≡ false
stays_resolved r c h = ground (arith, h, r.status c)

All-linked-stays :
    {w w' : World} (r : Resolves w w') (cs : List ℕ)
    → All (λ c. is_linked w c ≡ true) cs
    → All (λ c. is_linked w' c ≡ true) cs
All-linked-stays r [] h = tt
All-linked-stays r (c ∷ cs) (h, hs) = (r.linked c h, All-linked-stays r cs hs)

-- Checks that are linked are all released: the loop returns, and leaves none of them that has to
-- resolve a dependency.
pub resolve-found :
    (cs : List ℕ) (w : World)
    → All (λ c. is_linked w c ≡ true) cs
    → (w' : World) × (resolve cs w ≡ some w')
      × Resolves w w'
      × All (λ c. is_havetoresolvedep (w'.checks c).status ≡ false) cs
unfolding resolve
resolve-found [] w h = (w, refl, Resolves-refl w, tt)
resolve-found (c ∷ cs) w (h, hs) =
    let (w1, found, r, out) = resolve_one-found c w h in
    let (w2, found2, r2, outs) = resolve-found cs w1 (All-linked-stays r cs hs) in
    (
      w2,
      ap (λ o. o >>= resolve cs) found ∙ found2,
      Resolves-trans r r2,
      (stays_resolved r2 c out, outs),
    )
