-- ===== src/InodeCache/Safe.antt =====
-- src/inode_cache.c: get_cache_entry and set_cache_entry keep the list of the cache whole.
use alt_file_system.Prelude.{
  ℕ, ◌+◌, ◌<◌, ◌≤◌, ◌≡◌, ◌≢◌, refl, subst, sym, ◌⊎◌, inl, inr, true, false, some, List, arith, ltb,
  ◌==◌, Bool-cases, length,
}
use alt_file_system.Disk.{minus_one}
use alt_file_system.InodeCache.{
  Cache, update, hash_index, move_to_front, push_front, set_cache_entry, get_cache_entry,
}
use alt_file_system.InodeCache.Links.{IsLinked}
use alt_file_system.InodeCache.Find.{find_lem}
use alt_file_system.InodeCache.Front.{moved, moved-IsLinked, move_to_front-moved}
use alt_file_system.InodeCache.Insert.{inserted, inserted-IsLinked}

module _ (P : List ℕ → ℕ → Type 0) where
  -- The entries are linked, and each has a key and a value that `P` allows.
  pub record IsCache (c : Cache) : Type 0 where
    pub rank : ℕ → ℕ
    pub linked : IsLinked c rank
    pub allowed : (p : ℕ) → c.live p ≡ true → P (c.key p) (c.value p)

  -- The cache after a move to the front.
  move_to_front-IsCache :
      (c : Cache) (p : ℕ)
      → IsCache c
      → c.live p ≡ true
      → (c' : Cache) × (move_to_front p c ≡ some c')
        × IsCache c'
        × (c'.value ≡ c.value)
        × (c'.size ≡ c.size)
        × (c'.capacity ≡ c.capacity)
  unfolding move_to_front
  move_to_front-IsCache c p w l = elim (Bool-cases (p == c.head)) [
    | inl first ↦ (c, ground arith, w, refl, refl, refl)
    | inr later ↦
        let ne : p ≢ c.head = ground arith in
        (
          moved c p,
          move_to_front-moved c w.rank w.linked p l ne,
          record {
            rank = update w.rank p c.clock;
            linked = moved-IsLinked c w.rank w.linked p l ne;
            allowed = w.allowed;
          },
          refl,
          refl,
          refl,
        )
  ]

  -- On a cache whose entries satisfy `P` for their keys, get_cache_entry uses no pointer that is not an entry,
  -- ends, returns -1 or a value that `P` allows for the key, and leaves such a cache, of the same size
  -- and capacity.
  pub get_cache_entry-IsCache :
      (c : Cache) (k : List ℕ)
      → IsCache c
      → (v : ℕ) × (c' : Cache) × (get_cache_entry k c ≡ some (v, c'))
        × ((v ≡ minus_one) ⊎ P k v)
        × IsCache c'
        × (c'.size ≡ c.size)
        × (c'.capacity ≡ c.capacity)
  unfolding get_cache_entry
  get_cache_entry-IsCache c k w = elim (Bool-cases (length k == 0)) [
    | inl empty ↦ (minus_one, c, rw empty refl, inl refl, w, refl, refl)
    | inr nonempty ↦ elim (find_lem c w.rank w.linked k (hash_index c k)) [
      | inl missing ↦ (minus_one, c, rw (nonempty, missing) refl, inl refl, w, refl, refl)
      | inr (p, found, l, same) ↦
          let (c', e, w', values, sizes, capacities) = move_to_front-IsCache c p w l in
          (
            c'.value p,
            c',
            rw (nonempty, found, e) refl,
            inr (rw values (subst (λ key. P key (c.value p)) same (w.allowed p l))),
            w',
            sizes,
            capacities,
          )
    ]
  ]

  revalued :
      (c : Cache) (k : List ℕ) (p v : ℕ)
      → IsCache c
      → c.key p ≡ k
      → P k v
      → IsCache (record c { value = update c.value p v })
  revalued c k p v w same pv = record {
    rank = w.rank;
    linked = record {
      null_dead = w.linked.null_dead;
      started = w.linked.started;
      below_clock = w.linked.below_clock;
      rank_below = w.linked.rank_below;
      ranked = w.linked.ranked;
      has_head = w.linked.has_head;
      head_or_null = w.linked.head_or_null;
      tail_or_null = w.linked.tail_or_null;
      has_tail = w.linked.has_tail;
      before = w.linked.before;
      after = w.linked.after;
      mapped = w.linked.mapped;
    };
    allowed = λ q l. elim (Bool-cases (p == q)) [
      | inl here ↦
          let e : p ≡ q = ground arith in
          rw here (subst (λ r. P (c.key r) v) e (subst (λ key. P key v) (sym same) pv))
      | inr elsewhere ↦ rw elsewhere (w.allowed q l)
    ];
  }

  inserted-IsCache :
      (c : Cache) (k : List ℕ) (v h : ℕ) → IsCache c → P k v → IsCache (inserted k v h c)
  unfolding push_front
  inserted-IsCache c k v h w pv = record {
    rank = update w.rank c.clock c.clock;
    linked = inserted-IsLinked c w.rank w.linked k v h;
    allowed = λ q l. elim (Bool-cases (c.clock == q)) [
      | inl here ↦ rw here pv
      | inr elsewhere ↦ rw elsewhere (w.allowed q (ground arith))
    ];
  }

  -- On a cache whose entries satisfy `P` for their keys, and that holds fewer entries than its capacity,
  -- set_cache_entry with a value that `P` allows for the key uses no pointer that is not an entry,
  -- ends, and leaves such a cache, of the same capacity and with at most one entry more.
  pub set_cache_entry-IsCache :
      (c : Cache) (k : List ℕ) (v : ℕ)
      → IsCache c
      → P k v
      → c.size < c.capacity
      → (c' : Cache) × (set_cache_entry k v c ≡ some c')
        × IsCache c'
        × (c'.size ≤ c.size + 1)
        × (c'.capacity ≡ c.capacity)
  unfolding set_cache_entry push_front
  set_cache_entry-IsCache c k v w pv room = elim (Bool-cases (length k == 0)) [
    | inl empty ↦ (c, rw empty refl, w, omega arith, refl)
    | inr nonempty ↦ elim (find_lem c w.rank w.linked k (hash_index c k)) [
      | inl missing ↦
          let fits : ltb c.capacity (c.size + 1) ≡ false = ground arith in
          (
            inserted k v (hash_index c k) c,
            rw (nonempty, missing, fits) refl,
            inserted-IsCache c k v (hash_index c k) w pv,
            omega arith,
            refl,
          )
      | inr (p, found, l, same) ↦
          let (c', e, w', values, sizes, capacities) =
            move_to_front-IsCache (record c { value = update c.value p v }) p
              (revalued c k p v w same pv) l in
          (c', rw (nonempty, found, e) refl, w', omega (arith, sizes), capacities)
    ]
  ]
