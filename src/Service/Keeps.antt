-- ===== src/Service/Keeps.antt =====
-- `monitor_service_status` and START of SaceServiceExcutor, and its tables.
use sa_excutor.Common.{
  ℕ, ◌≡◌, refl, sym, ap, ◌∙◌, true, false, ◌⊎◌, inl, inr, List, [], ◌∷◌, ◌++◌, none, some, arith,
  Str, nat_eq, nat_eq_iff, ℕ_eq, Str_eq, str_eq_iff, All, Bool-cases, Option-cases, Run, done,
}
use sa_excutor.Common.Map.{find, insert, find-insert, find-insert_new}
use sa_excutor.Types.{SaceWriter, SaceCommand}
use sa_excutor.Service.{
  ServiceInfo, State, Env, WaitAnswer, exited, signaled, changed, still, no_child, failed,
}
use sa_excutor.Service.Monitor.{get_elem?, ended, monitor_service_status}
use sa_excutor.Service.Scan.{
  In, CalmBut, is_calm, monitor-calm, monitor-out, monitor-ended, monitor-lost,
}
use sa_excutor.Service.Handle.{new_label, new_info, started}
use sa_excutor.Service.Invariant.{Distinct, Inv, Inv-IsAllocated, In-get_elem?, released-Inv}

ended-none :
    (w : WaitAnswer) (i : ServiceInfo) → ended w i ≡ none → (is_calm w ≡ true) ⊎ (w ≡ no_child)
unfolding ended
ended-none still i h = inl refl
ended-none failed i h = inl refl
ended-none no_child i h = inr refl
ended-none (exited c) i h = ground arith
ended-none (signaled c) i h = ground arith
ended-none (changed c) i h = ground arith

abbrev pub KeepsInv : Run State → Type 0
KeepsInv r = (s : State) × (r ≡ done s) × Inv s

-- From tables in step, a pass of `monitor_service_status` in which at most one wait answers
-- returns, and leaves the tables in step.
pub monitor_keeps :
    (waits : ℕ → WaitAnswer) (k : ℕ) (s : State)
    → Inv s
    → CalmBut k waits
    → KeepsInv (monitor_service_status waits s)
monitor_keeps waits k s v calm = elim (Option-cases (get_elem? s.running k)) [
  | inl out ↦ (s, monitor-out waits k s out calm (Inv-IsAllocated s v), v)
  | inr (a, here) ↦
      let (i, found, _, _, lives) = v.entry a (In-get_elem? k a s.running here) in
      elim (Option-cases (ended (waits k) i)) [
        | inr (r, over) ↦ (
          _,
          monitor-ended waits k a i s here found calm (Inv-IsAllocated s v) r lives over,
          released-Inv s k a i _ v here found,
        )
        | inl nothing ↦ elim (ended-none (waits k) i nothing) [
          | inr lost ↦ (
            _,
            monitor-lost waits k a i s here found calm (Inv-IsAllocated s v) lives lost,
            released-Inv s k a i _ v here found,
          )
          | inl quiet ↦ (
            s,
            monitor-calm waits s
                (λ j. elim (Bool-cases (nat_eq j k)) [
                  | inl e ↦ rw ((nat_eq_iff j k).0 e) quiet
                  | inr e ↦ calm j e
                ])
                (Inv-IsAllocated s v),
            v,
          )
        ]
      ]
]

In-append : (b a : ℕ) (xs : List ℕ) → In b (xs ++ a ∷ []) → In b xs ⊎ (b ≡ a)
In-append b a [] (inl p) = inr p
In-append b a [] (inr m) = elim m [ ]
In-append b a (x ∷ xs) (inl p) = inl (inl p)
In-append b a (x ∷ xs) (inr m) = elim (In-append b a xs m) [ inl m ↦ inl (inr m) | inr p ↦ inr p ]

In-append_left : (b a : ℕ) (xs : List ℕ) → In b xs → In b (xs ++ a ∷ [])
In-append_left b a [] m = elim m [ ]
In-append_left b a (x ∷ xs) (inl p) = inl p
In-append_left b a (x ∷ xs) (inr m) = inr (In-append_left b a xs m)

In-append_last : (a : ℕ) (xs : List ℕ) → In a (xs ++ a ∷ [])
In-append_last a [] = inl refl
In-append_last a (x ∷ xs) = inr (In-append_last a xs)

All-append_last {κ} : (P : ℕ → Type κ) (xs : List ℕ) (x : ℕ) → All P xs → P x → All P (xs ++ x ∷ [])
All-append_last P [] x h p = (p, tt)
All-append_last P (y ∷ xs) x h p = (h.0, All-append_last P xs x h.1 p)

Distinct-append_last :
    (xs : List ℕ) (x : ℕ)
    → Distinct xs
    → ((y : ℕ) → In y xs → nat_eq y x ≡ false)
    → Distinct (xs ++ x ∷ [])
Distinct-append_last [] x d h = (tt, tt)
Distinct-append_last (y ∷ xs) x d h = (
  All-append_last _ xs x d.0 (h y (inl refl)),
  Distinct-append_last xs x d.1 (λ z m. h z (inr m)),
)

-- `new` gives an address that is not in use, and the label is not in use.
abbrev pub IsNew : Env → SaceCommand → State → Type 0
IsNew env cmd s = (find env.addr s.heap ≡ none) × (find (new_label env cmd) s.seq ≡ none)

-- A START whose name is not in use.
module _ (env : Env) (cmd : SaceCommand) (writer : SaceWriter) (pid : ℕ) (s : State) (v : Inv s)
    (new : IsNew env cmd s) (unnamed : find cmd.name s.names ≡ none) where
  abbrev info : ServiceInfo
  info = new_info env cmd writer pid

  apart : (b : ℕ) → In b s.running → nat_eq b env.addr ≡ false
  apart b m = elim (Bool-cases (nat_eq b env.addr)) [
    | inr e ↦ e
    | inl e ↦
        let (x, there, _, _, _) = v.entry b m in
        absurd (ground (arith, ap (λ b. find b s.heap) ((nat_eq_iff b env.addr).0 e), there, new.0))
  ]

  heap_before :
      (b : ℕ) (x : ServiceInfo)
      → nat_eq b env.addr ≡ false
      → find b (insert env.addr info s.heap) ≡ some x
      → find b s.heap ≡ some x
  heap_before b x other there = ground (arith, find-insert b env.addr info s.heap)

  heap_here : (x : ServiceInfo) → find env.addr (insert env.addr info s.heap) ≡ some x → info ≡ x
  heap_here x there = ground (arith, find-insert_new env.addr info s.heap new.0)

  label_before :
      (l b : ℕ)
      → find l (insert (new_label env cmd) env.addr s.seq) ≡ some b
      → ((l ≡ new_label env cmd) × (b ≡ env.addr)) ⊎ (find l s.seq ≡ some b)
  label_before l b there = ground (
    arith,
    find-insert l (new_label env cmd) env.addr s.seq,
    nat_eq_iff l (new_label env cmd),
    new.1,
  )

  name_before :
      (n : Str) (b : ℕ)
      → find n (insert cmd.name env.addr s.names) ≡ some b
      → ((n ≡ cmd.name) × (b ≡ env.addr)) ⊎ (find n s.names ≡ some b)
  name_before n b there =
      ground (arith, find-insert n cmd.name env.addr s.names, str_eq_iff n cmd.name, unnamed)

  pub started-Inv : Inv (started env cmd writer pid s)
  started-Inv = record {
    entry = λ b m. elim (In-append b env.addr s.running m) [
      | inr at ↦ rw at (
        info,
        find-insert_new env.addr info s.heap new.0,
        find-insert_new (new_label env cmd) env.addr s.seq new.1,
        find-insert_new cmd.name env.addr s.names unnamed,
        refl,
      )
      | inl before ↦
          let (x, there, labelled, named, lives) = v.entry b before in
          (
            x,
            ground (arith, find-insert b env.addr info s.heap, apart b before),
            ground (
              arith,
              find-insert x.label (new_label env cmd) env.addr s.seq,
              nat_eq_iff x.label (new_label env cmd),
              new.1,
            ),
            ground (
              arith,
              find-insert x.name cmd.name env.addr s.names,
              str_eq_iff x.name cmd.name,
              unnamed,
            ),
            lives,
          )
    ];
    by_label = λ l b there. elim (label_before l b there) [
      | inl (is, at) ↦ (
        rw at (In-append_last env.addr s.running),
        λ x h.
            ap (λ x. x.label)
              (sym (heap_here x (ap (λ b. find b (insert env.addr info s.heap)) (sym at) ∙ h)))
            ∙ sym is,
      )
      | inr before ↦
          let (inside, is_label) = v.by_label l b before in
          (
            In-append_left b env.addr s.running inside,
            λ x h. is_label x (heap_before b x (apart b inside) h),
          )
    ];
    by_name = λ n b there. elim (name_before n b there) [
      | inl (is, at) ↦ (
        rw at (In-append_last env.addr s.running),
        λ x h.
            ap (λ x. x.name)
              (sym (heap_here x (ap (λ b. find b (insert env.addr info s.heap)) (sym at) ∙ h)))
            ∙ sym is,
      )
      | inr before ↦
          let (inside, is_name) = v.by_name n b before in
          (
            In-append_left b env.addr s.running inside,
            λ x h. is_name x (heap_before b x (apart b inside) h),
          )
    ];
    distinct = Distinct-append_last s.running env.addr v.distinct apart;
  }
