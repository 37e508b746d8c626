-- ===== src/Hub/Routing.antt =====
-- Who hears of a change: `fNotify` and `fMatchesPrefix` of src/sync_hub.cpp.
use lectern_server.Prelude.{
  ℕ, ◌≡◌, refl, subst, true, false, not, ◌&&◌, some, List, [], ◌∷◌, ◌++◌, arith, Str, All,
  All-append, length, Option-cases, Bool-cases, inl, inr, ◌⊎◌, is_empty, str_eq, str_eq_iff,
  str_eq_refl, is_empty, leb, and_split,
}
use lectern_server.Hub.Table.{Watch, Connection, Connections, find_connection}
use lectern_server.Hub.{
  Hub, Effect, send, notify, send_tracked, announce, targets, target_paths, set_has, changes,
  matches_prefix, add_visible, watched_paths, is_owners_device, is_origin, capped, add_target,
}
use lectern_server.Hub.Prefix.{Matches, matches_prefix_sound}

abbrev pub Follows : Str → Str → List Watch → Type 0
Follows owner path [] = ⊥
Follows owner path (w ∷ watches) =
    ((w.owner ≡ owner) × Matches path w.prefix) ⊎ Follows owner path watches

-- What a connection that follows `watches` may learn of a change of `paths`.
abbrev pub MaySee : Str → List Str → List Watch → Str → Type 0
MaySee owner paths watches path = (set_has path paths ≡ true) × Follows owner path watches

module _ (owner : Str) (all_paths : List Str) (P : Str → Type 0) where
  add_visible-All :
      (prefix : Str) (visible paths : List Str)
      → ((p : Str) → set_has p paths ≡ true → Matches p prefix → P p)
      → All P visible
      → All P (add_visible prefix visible paths)
  unfolding add_visible
  add_visible-All prefix visible [] ok h = h
  add_visible-All prefix visible (p ∷ paths) ok h =
      elim (Bool-cases (matches_prefix p prefix && not (set_has p visible))) [
        | inl yes_seen ↦ rw yes_seen (
            add_visible-All prefix (visible ++ p ∷ []) paths later (
              All-append P visible (p ∷ []) h (
                ok p (rw (str_eq_refl p) refl)
                    (matches_prefix_sound p prefix (and_split _ _ yes_seen).0),
                tt,
              )))
        | inr skipped ↦ rw skipped (add_visible-All prefix visible paths later h)
      ]
    where
      later : (q : Str) → set_has q paths ≡ true → Matches q prefix → P q
      later q m = ok q (ground arith)

watched_paths-All :
    (owner : Str) (paths visible : List Str) (P : Str → Type 0) (watches : List Watch)
    → ((p : Str) → MaySee owner paths watches p → P p)
    → All P visible
    → All P (watched_paths owner paths visible watches)
unfolding watched_paths
watched_paths-All owner paths visible P [] ok h = h
watched_paths-All owner paths visible P (w ∷ watches) ok h =
    elim (Bool-cases (str_eq w.owner owner)) [
      | inl mine ↦ rw mine (
          watched_paths-All owner paths (add_visible w.prefix visible paths) P watches
            (λ p m. ok p (m.0, inr m.1))
            (add_visible-All owner paths P w.prefix visible paths
              (λ p m t. ok p (m, inl ((str_eq_iff _ _).0 mine, t))) h))
      | inr other ↦
          rw other (watched_paths-All owner paths visible P watches (λ p m. ok p (m.0, inr m.1)) h)
    ]

-- What the hub tells a connection of a change: all that changed, to a device of the workspace's
-- owner, or else only paths that it may see, and only where there is one.
abbrev pub MayHear : Str → List Str → Str → Connection → List Str → Type 0
MayHear owner paths origin c list =
    (is_origin origin c ≡ false)
    × (((c.user_id ≡ owner) × (is_empty owner ≡ false))
        ⊎ (((path : Str) × MaySee owner paths c.watches path)
            × All (MaySee owner paths c.watches) list))

capped-All : (P : Str → Type 0) (visible : List Str) → All P visible → All P (capped visible)
capped-All P visible h = elim (Bool-cases (leb (length visible) 100)) [
  | inl few ↦ rw few h
  | inr many ↦ rw many tt
]

target_paths-MayHear :
    (owner : Str) (paths : List Str) (origin : Str) (c : Connection) {list : List Str}
    → target_paths owner paths origin c ≡ some list
    → MayHear owner paths origin c list
unfolding target_paths is_owners_device
target_paths-MayHear owner paths origin c {list} e = elim (Bool-cases (is_origin origin c)) [
  | inl own ↦ absurd (ground arith)
  | inr foreign ↦ (
    foreign,
    elim (Bool-cases (is_owners_device owner c)) [
      | inl device ↦ inl (owner_device device)
      | inr watcher ↦
          inr (some_path _ seen_all (shown foreign watcher), watcher_list foreign watcher)
    ],
  )
]
  where
    owner_device : is_owners_device owner c ≡ true → (c.user_id ≡ owner) × (is_empty owner ≡ false)
    owner_device h =
        let same =
          (str_eq_iff c.user_id owner).0
            (and_split (not (is_empty c.user_id)) (str_eq c.user_id owner) h).1 in
        (same, ground arith)

    some_path :
        (visible : List Str)
        → All (MaySee owner paths c.watches) visible
        → is_empty visible ≡ false
        → (path : Str) × MaySee owner paths c.watches path
    some_path [] h full = cc
    some_path (path ∷ visible) h full = (path, h.0)

    shown :
        is_origin origin c ≡ false
        → is_owners_device owner c ≡ false
        → is_empty (watched_paths owner paths [] c.watches) ≡ false
    shown foreign watcher = elim (Bool-cases (is_empty (watched_paths owner paths [] c.watches))) [
      | inl nothing ↦ absurd (ground arith)
      | inr something ↦ something
    ]

    seen_all : All (MaySee owner paths c.watches) (watched_paths owner paths [] c.watches)
    seen_all =
        watched_paths-All owner paths [] (MaySee owner paths c.watches) c.watches (λ p m. m) tt

    seen : All (MaySee owner paths c.watches) (capped (watched_paths owner paths [] c.watches))
    seen = capped-All _ _ seen_all

    watcher_list :
        is_origin origin c ≡ false
        → is_owners_device owner c ≡ false
        → All (MaySee owner paths c.watches) list
    watcher_list foreign watcher =
        let same : capped (watched_paths owner paths [] c.watches) ≡ list = ground arith in
        subst (All (MaySee owner paths c.watches)) same seen

-- A connection that stands in the table.
abbrev pub EntryIn : ℕ → Connection → Connections → Type 0
EntryIn k c [] = ⊥
EntryIn k c ((i, d) ∷ rest) = ((i ≡ k) × (d ≡ c)) ⊎ EntryIn k c rest

-- A list of paths that connection `k` of the table may hear.
abbrev pub IsAllowed : Str → List Str → Str → Connections → ℕ → List Str → Type 0
IsAllowed owner paths origin cs k list =
    (c : Connection) × EntryIn k c cs × MayHear owner paths origin c list

targets-IsAllowed :
    (owner : Str) (paths : List Str) (origin : Str) (all cs : Connections)
    → ((k : ℕ) (c : Connection) → EntryIn k c cs → EntryIn k c all)
    → All (λ t. IsAllowed owner paths origin all t.0 t.1) (targets owner paths origin cs)
unfolding targets
targets-IsAllowed owner paths origin all [] sub = tt
targets-IsAllowed owner paths origin all ((i, c) ∷ rest) sub =
    let later = targets-IsAllowed owner paths origin all rest (λ k d m. sub k d (inr m)) in
    elim (Option-cases (target_paths owner paths origin c)) [
      | inl e ↦ rw (e, add_target) later
      | inr (list, e) ↦
          rw (e, add_target)
            ((c, sub i c (inl (refl, refl)), target_paths-MayHear owner paths origin c e), later)
    ]

-- A property of every "changes" frame among the effects.
abbrev pub OfChanges : (ℕ → List Str → Type 0) → Effect → Type 0
OfChanges P (send k (changes id list)) = P k list
OfChanges P _ = Unit

send_tracked-OfChanges :
    (P : ℕ → List Str → Type 0) (h : Hub) (k : ℕ) (list : List Str)
    → P k list
    → All (OfChanges P) (send_tracked h k (λ id. changes id list)).1
unfolding send_tracked
send_tracked-OfChanges P h k list p = elim (Option-cases (find_connection k h.connections)) [
  | inl e ↦ rw (e, send_tracked) tt
  | inr (c, e) ↦ rw (e, send_tracked) (p, (tt, tt))
]

announce-OfChanges :
    (P : ℕ → List Str → Type 0) (h : Hub) (ts : List (ℕ × List Str))
    → All (λ t. P t.0 t.1) ts
    → All (OfChanges P) (announce h ts).1
unfolding announce
announce-OfChanges P h [] p = tt
announce-OfChanges P h ((k, list) ∷ ts) p =
    All-append (OfChanges P) (send_tracked h k (λ id. changes id list)).1 _
      (send_tracked-OfChanges P h k list p.0)
      (announce-OfChanges P (send_tracked h k (λ id. changes id list)).0 ts p.1)

-- Every announcement of a change goes to a connection of the table that is not the device it came
-- from; unless that connection is signed in as the workspace's owner, some changed path is, or lies
-- under, a path of this owner that the connection follows, and so is or does each path it names.
pub notify-IsAllowed :
    (h : Hub) (owner : Str) (paths : List Str) (origin : Str)
    → All (OfChanges (IsAllowed owner paths origin h.connections)) (notify h owner paths origin).1
unfolding notify
notify-IsAllowed h owner paths origin =
    announce-OfChanges _ h (targets owner paths origin h.connections)
      (targets-IsAllowed owner paths origin h.connections h.connections (λ k c m. m))
