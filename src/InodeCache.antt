-- ===== src/InodeCache.antt =====
-- src/inode_cache.c: a hash map from paths to inode numbers, whose entries also form a doubly linked
-- list with the most recent first. The heap of entries is kept field by field: `live` says which
-- addresses hold an entry, and 0 is NULL. The result `none` of a function is the use of an address that
-- holds no entry. A key is the bytes of a string without the NUL; char is signed, so that bytes from 128
-- on are no upper-case letters.
pub mod Links
pub mod Find
pub mod Front
pub mod Insert
pub mod Safe
use mathlib.Core.Option
use alt_file_system.Prelude.{
  ℕ, zero, suc, ◌+◌, ◌-◌, ◌*◌, ◌%◌, Bool, true, false, not, ◌&&◌, Option, none, some, List, [], ◌∷◌,
  ltb, leb, ◌==◌, if◌then◌else◌, length,
}
use alt_file_system.Bytes.{word_mod}
use alt_file_system.Disk.{minus_one}

-- struct inode_cache, and the entries it points to. `clock` counts the allocations and the moves to the
-- front: it is the address of the next allocation, and no walk through the list is longer.
pub record Cache : Type 0 where
  pub live : ℕ → Bool
  pub prev : ℕ → ℕ
  pub next : ℕ → ℕ
  pub key : ℕ → List ℕ
  pub value : ℕ → ℕ
  pub clock : ℕ
  pub size : ℕ
  pub capacity : ℕ
  pub map : ℕ → ℕ
  pub head : ℕ
  pub tail : ℕ

abbrev pub update : {A : Type 0} → (ℕ → A) → ℕ → A → ℕ → A
update f p v q = if p == q then v else f q

-- strcmp(a, b) == 0
unfoldable pub same_key : List ℕ → List ℕ → Bool
same_key [] [] = true
same_key [] (d ∷ ds) = false
same_key (c ∷ cs) [] = false
same_key (c ∷ cs) (d ∷ ds) = c == d && same_key cs ds

abbrev pub is_upper : ℕ → Bool
is_upper c = leb b'A' c && leb c b'Z'

-- The loop of hash_func.
unfoldable pub hash_from : ℕ → List ℕ → ℕ
hash_from hash [] = hash
hash_from hash (c ∷ str) =
    hash_from (if is_upper c then (hash * 33 + (c + 32)) % word_mod else hash) str

unfoldable pub hash_func : List ℕ → ℕ
unfolding hash_from
hash_func str = hash_from 5381 str

unfoldable pub hash_index : Cache → List ℕ → ℕ
unfolding hash_func
hash_index cache k = hash_func k % cache.capacity

unfoldable pub create_inode_cache : (capacity : ℕ) → Cache
create_inode_cache capacity = record {
  live = λ _. false;
  prev = λ _. 0;
  next = λ _. 0;
  key = λ _. [];
  value = λ _. 0;
  clock = 1;
  size = 0;
  capacity = capacity;
  map = λ _. 0;
  head = 0;
  tail = 0;
}

-- p->next = q and p->prev = q
unfoldable pub set_next : (p q : ℕ) → Cache → Option Cache
set_next p q c = if c.live p then some (record c { next = update c.next p q }) else none

unfoldable pub set_prev : (p q : ℕ) → Cache → Option Cache
set_prev p q c = if c.live p then some (record c { prev = update c.prev p q }) else none

infixl 5 ◌>>=◌
abbrev pub ◌>>=◌ {ℓ κ} : {A : Type ℓ} {B : Type κ} → Option A → (A → Option B) → Option B
none >>= f = none
some a >>= f = f a

-- The loop that the functions share: from `curr` on, the first entry with the key, if there is one.
unfoldable pub find : (fuel curr : ℕ) → List ℕ → Cache → Option (Option ℕ)
unfolding same_key
find zero curr k c = none
find (suc fuel) curr k c =
    let rest = find fuel (c.next curr) k c in
    if curr == 0
    then some none
    else if not (c.live curr)
    then none
    else if same_key (c.key curr) k
    then some (some curr)
    else rest

-- The entry `p`, not the head, is taken out of its place.
unfoldable pub unlink_entry : (p : ℕ) → Cache → Option Cache
unfolding set_next set_prev
unlink_entry p c = do
  c1 ← set_next (c.prev p) (c.next p) c
  if p == c1.tail
      then some (record c1 { tail = c1.prev p })
      else set_prev (c1.next p) (c1.prev p) c1

-- The block "Move the new node to front of the cache" of set_cache_entry and get_cache_entry.
unfoldable pub move_to_front : (p : ℕ) → Cache → Option Cache
unfolding unlink_entry set_prev
move_to_front p c = if p == c.head then some c else (do
  c1 ← unlink_entry p c
  let c2 : Cache = record c1 {
    prev = update c1.prev p 0;
    next = update c1.next p c1.head;
    clock = suc c1.clock;
  }
  c3 ← set_prev c2.head p c2
  some (record c3 { head = p }))

unfoldable pub delete_node : (p : ℕ) → Cache → Option Cache
unfolding set_next set_prev
delete_node p c =
    let c1 =
      if p == c.head
      then record c { head = c.next p }
      else if p == c.tail
      then record c { tail = c.prev p }
      else c in
    if not (c.live p) then none else (do
      c2 ← if c1.prev p == 0 then some c1 else set_next (c1.prev p) (c1.next p) c1
      c3 ← if c2.next p == 0 then some c2 else set_prev (c2.next p) (c2.prev p) c2
      some (record c3 { live = update c3.live p false }))

unfoldable pub remove_cache_entry : List ℕ → Cache → Option (Bool × Cache)
unfolding hash_index find delete_node
remove_cache_entry k c = do
  found ← find c.clock (c.map (hash_index c k)) k c
  elim found [
    | none ↦ some (false, c)
    | some p ↦ (do
      c1 ← delete_node p c
      some (true, record c1 { map = update c1.map (hash_index c k) 0 }))
  ]

-- A new entry at the front of the list.
unfoldable pub push_front : List ℕ → (v : ℕ) → Cache → Cache
push_front k v c =
    let p = c.clock in
    record c {
      live = update c.live p true;
      prev = update (if c.head == 0 then c.prev else update c.prev c.head p) p 0;
      next = update c.next p c.head;
      key = update c.key p k;
      value = update c.value p v;
      clock = suc p;
      size = c.size + 1;
      head = p;
      tail = if c.tail == 0 then p else c.tail;
    }

-- The entry at the end of the list is dropped.
unfoldable pub delete_last : Cache → Option Cache
unfolding delete_node
delete_last c = do c1 ← delete_node c.tail c; some (record c1 { size = c1.size - 1 })

unfoldable pub set_cache_entry : List ℕ → (v : ℕ) → Cache → Option Cache
unfolding hash_index find move_to_front push_front delete_last
set_cache_entry k v c =
    let h = hash_index c k in
    if length k == 0 then some c else (do
      found ← find c.clock (c.map h) k c
      elim found [
        | some p ↦ move_to_front p (record c { value = update c.value p v })
        | none ↦ (do
          let c1 = push_front k v c
          c2 ← if ltb c1.capacity c1.size then delete_last c1 else some c1
          some (record c2 { map = update c2.map h c.clock }))
      ])

unfoldable pub get_cache_entry : List ℕ → Cache → Option (ℕ × Cache)
unfolding hash_index find move_to_front
get_cache_entry k c = if length k == 0 then some (minus_one, c) else (do
  found ← find c.clock (c.map (hash_index c k)) k c
  elim found [
    | none ↦ some (minus_one, c)
    | some p ↦ (do c1 ← move_to_front p c; some (c1.value p, c1))
  ])
