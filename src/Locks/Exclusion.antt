-- ===== src/Locks/Exclusion.antt =====
-- That the lock of a volume ID has one holder at most, and is waited for only because of it.
use csi_plugin.Base.{
  ℕ, ◌+◌, ◌≤◌, ◌<◌, ◌≡◌, ◌⊎◌, inl, inr, refl, sym, ◌∙◌, String, Option, none, some, List, [], ◌∷◌,
  ◌++◌, eqb, arith, eq_iff, if◌then◌else◌,
}
use csi_plugin.Base.Dict.{Dict, lookup, insert, lookup-insert, lookup-nil}
use csi_plugin.Locks.{
  Caller, waiting, holding, System, with_weight, start, find_lock, acquire_volume_lock,
  lock_granted, unlock, give_up, lock_size, asks, granted, gives_up, unlocks, Reach, here, after,
  one_holder, holders,
}

abbrev one_user : ℕ → Caller → ℕ
one_user n (waiting id lock) = 0
one_user n (holding id lock) = if eqb lock n then 1 else 0

-- How many callers hold the lock.
users : ℕ → List Caller → ℕ
users n [] = 0
users n (c ∷ l) = one_user n c + users n l

users-append : (n : ℕ) (l r : List Caller) → users n (l ++ r) ≡ users n l + users n r
unfolding users
users-append n [] r = omega arith
users-append n (c ∷ l) r = let i = users-append n l r in omega arith

abbrev Found : Dict ℕ → Caller → Type 0
Found locks (waiting id lock) = lookup id locks ≡ some lock
Found locks (holding id lock) = lookup id locks ≡ some lock

abbrev AllFound : Dict ℕ → List Caller → Type 0
AllFound locks [] = Unit
AllFound locks (c ∷ l) = Found locks c × AllFound locks l

all_but :
    (locks : Dict ℕ) (l r : List Caller) (c : Caller)
    → AllFound locks (l ++ c ∷ r)
    → AllFound locks (l ++ r)
all_but locks [] r c (h, hs) = hs
all_but locks (b ∷ l) r c (h, hs) = (h, all_but locks l r c hs)

exchanged :
    (locks : Dict ℕ) (l r : List Caller) (c b : Caller)
    → (Found locks c → Found locks b)
    → AllFound locks (l ++ c ∷ r)
    → AllFound locks (l ++ b ∷ r)
exchanged locks [] r c b k (h, hs) = (k h, hs)
exchanged locks (a ∷ l) r c b k (h, hs) = (h, exchanged locks l r c b k hs)

-- What stays true: the weight of a lock is the number of its holders and within its size, each caller
-- has the lock of its ID, and two IDs have two locks.
record Inv (s : System) : Type 0 where
  counted : (n : ℕ) → s.weights n ≡ users n s.callers
  within : (n : ℕ) → s.weights n ≤ 1
  found : AllFound s.volume_locks s.callers
  numbered : (id : String) (n : ℕ) → lookup id s.volume_locks ≡ some n → n < s.made
  apart :
      (id j : String) (n : ℕ)
      → lookup id s.volume_locks ≡ some n
      → lookup j s.volume_locks ≡ some n
      → id ≡ j
  unused : (n : ℕ) → s.made ≤ n → s.weights n ≡ 0

found_or_not : (o : Option ℕ) → ((n : ℕ) × (o ≡ some n)) ⊎ (o ≡ none)
found_or_not none = inr refl
found_or_not (some n) = inl (n, refl)

none_some : {A : Type 0} (n : ℕ) {o : Option ℕ} → o ≡ none → o ≡ some n → A
none_some n h k = cc

start-Inv : Inv start
unfolding users
start-Inv = record {
  counted = λ n. refl;
  within = λ n. omega arith;
  found = tt;
  numbered = λ id n h. none_some n (lookup-nil id) h;
  apart = λ id j n h k. none_some n (lookup-nil id) h;
  unused = λ n h. refl;
}

AllFound-Found :
    (locks : Dict ℕ) (l r : List Caller) (c : Caller) → AllFound locks (l ++ c ∷ r) → Found locks c
AllFound-Found locks [] r c (h, hs) = h
AllFound-Found locks (b ∷ l) r c (h, hs) = AllFound-Found locks l r c hs

module _ (locks : Dict ℕ) (id : String) (m : ℕ) (absent : lookup id locks ≡ none) where
  lookup-insert_kept :
      (j : String) (n : ℕ) → lookup j locks ≡ some n → lookup j (insert id m locks) ≡ some n
  lookup-insert_kept j n h = ground (arith, lookup-insert id j m locks, eq_iff id j)

  lookup-insert_cases :
      (j : String) (n : ℕ)
      → lookup j (insert id m locks) ≡ some n
      → ((id ≡ j) × (m ≡ n)) ⊎ (lookup j locks ≡ some n)
  lookup-insert_cases j n h = ground (arith, lookup-insert id j m locks, eq_iff id j)

  insert-Found : (c : Caller) → Found locks c → Found (insert id m locks) c
  insert-Found (waiting j lock) h = lookup-insert_kept j lock h
  insert-Found (holding j lock) h = lookup-insert_kept j lock h

  insert-AllFound : (l : List Caller) → AllFound locks l → AllFound (insert id m locks) l
  insert-AllFound [] h = tt
  insert-AllFound (c ∷ l) (h, hs) = (insert-Found c h, insert-AllFound l hs)

  insert-apart :
      ((j k : String) (n : ℕ) → lookup j locks ≡ some n → lookup k locks ≡ some n → j ≡ k)
      → ((j : String) (n : ℕ) → lookup j locks ≡ some n → n < m)
      → (j k : String) (n : ℕ) → lookup j (insert id m locks) ≡ some n
      → lookup k (insert id m locks) ≡ some n
      → j ≡ k
  insert-apart apart numbered j k n a b = elim (lookup-insert_cases j n a) [
    | inl (e, f) ↦ elim (lookup-insert_cases k n b) [
      | inl (e', f') ↦ sym e ∙ e'
      | inr h ↦ let u = numbered k n h in ground arith
    ]
    | inr h ↦ elim (lookup-insert_cases k n b) [
      | inl (e, f) ↦ let u = numbered j n h in ground arith
      | inr h' ↦ apart j k n h h'
    ]
  ]

  lookup-insert_new : lookup id (insert id m locks) ≡ some m
  lookup-insert_new = ground (arith, lookup-insert id id m locks, eq_iff id id)

find_lock-Inv :
    (o : Option ℕ) (id : String) (s : System)
    → lookup id s.volume_locks ≡ o
    → Inv s
    → Inv (find_lock o id s)
unfolding find_lock with_weight users
find_lock-Inv (some lock) id s h i = record {
  counted = λ n. let c = i.counted n in omega arith;
  within = i.within;
  found = (h, i.found);
  numbered = i.numbered;
  apart = i.apart;
  unused = i.unused;
}
find_lock-Inv none id s h i = record {
  counted = λ n. let c = i.counted n in let u = i.unused n in ground arith;
  within = λ n. let c = i.within n in ground arith;
  found = (
    lookup-insert_new s.volume_locks id s.made h,
    insert-AllFound s.volume_locks id s.made h s.callers i.found,
  );
  numbered = λ j n k. elim (lookup-insert_cases s.volume_locks id s.made h j n k) [
    | inl (e, f) ↦ omega arith
    | inr l ↦ let f = i.numbered j n l in omega arith
  ];
  apart = insert-apart s.volume_locks id s.made h i.apart i.numbered;
  unused = λ n a. let u = i.unused n in ground arith;
}

-- A caller that goes on, in the middle of the others.
module _ (s : System) (l r : List Caller) (id : String) (lock : ℕ) (i : Inv s) where
  lock_granted-Inv :
      s.callers ≡ l ++ waiting id lock ∷ r
      → s.weights lock + 1 ≤ 1
      → Inv (lock_granted l r id lock s)
  unfolding lock_granted with_weight users
  lock_granted-Inv e room =
      let all = rw e at i.found in
      record {
        counted = λ n.
            let c = rw e at i.counted n in
            let a = users-append n l (waiting id lock ∷ r) in
            let b = users-append n l (holding id lock ∷ r) in ground arith;
        within = λ n. let c = i.within n in ground arith;
        found = exchanged s.volume_locks l r (waiting id lock) (holding id lock) (λ h. h) all;
        numbered = i.numbered;
        apart = i.apart;
        unused = λ n a.
            let u = i.unused n in
            let b = i.numbered id lock (AllFound-Found s.volume_locks l r (waiting id lock) all) in
            ground arith;
      }

  give_up-Inv : s.callers ≡ l ++ waiting id lock ∷ r → Inv (give_up l r s)
  unfolding give_up users
  give_up-Inv e = record {
    counted = λ n.
        let c = rw e at i.counted n in
        let a = users-append n l (waiting id lock ∷ r) in let b = users-append n l r in omega arith;
    within = i.within;
    found = all_but s.volume_locks l r (waiting id lock) (rw e at i.found);
    numbered = i.numbered;
    apart = i.apart;
    unused = i.unused;
  }

  unlock-Inv : s.callers ≡ l ++ holding id lock ∷ r → Inv (unlock l r lock s)
  unfolding unlock with_weight users
  unlock-Inv e = record {
    counted = λ n.
        let c = rw e at i.counted n in
        let a = users-append n l (holding id lock ∷ r) in
        let b = users-append n l r in ground arith;
    within = λ n. let c = i.within n in let m = i.within lock in ground arith;
    found = all_but s.volume_locks l r (holding id lock) (rw e at i.found);
    numbered = i.numbered;
    apart = i.apart;
    unused = λ n a. let u = i.unused n in let v = i.unused lock in ground arith;
  }

reach-Inv : {s : System} → Reach s → Inv s
unfolding acquire_volume_lock
reach-Inv here = start-Inv
reach-Inv (after h (asks s id)) = find_lock-Inv (lookup id s.volume_locks) id s refl (reach-Inv h)
reach-Inv (after h (granted s l r id lock e room)) =
    lock_granted-Inv s l r id lock (reach-Inv h) e room
reach-Inv (after h (gives_up s l r id lock e)) = give_up-Inv s l r id lock (reach-Inv h) e
reach-Inv (after h (unlocks s l r id lock e)) = unlock-Inv s l r id lock (reach-Inv h) e

-- The holders of an ID are those of its lock.
module _ (locks : Dict ℕ)
    (apart : (id j : String) (n : ℕ)
      → lookup id locks ≡ some n
      → lookup j locks ≡ some n
      → id ≡ j) where
  one_holder-one_user :
      (id : String) (n : ℕ) (c : Caller)
      → lookup id locks ≡ some n
      → Found locks c
      → one_holder id c ≡ one_user n c
  one_holder-one_user id n (waiting j lock) h k = refl
  one_holder-one_user id n (holding j lock) h k =
      let a = apart j id n in ground (arith, eq_iff j id)

  holders-users :
      (id : String) (n : ℕ) (l : List Caller)
      → lookup id locks ≡ some n
      → AllFound locks l
      → holders id l ≡ users n l
  unfolding holders users
  holders-users id n [] h k = refl
  holders-users id n (c ∷ l) h (k, ks) =
      let a = one_holder-one_user id n c h k in let b = holders-users id n l h ks in omega arith

  none_holds :
      (id : String) (l : List Caller) → lookup id locks ≡ none → AllFound locks l → holders id l ≡ 0
  unfolding holders
  none_holds id [] h k = refl
  none_holds id (waiting j lock ∷ l) h (k, ks) = let a = none_holds id l h ks in ground arith
  none_holds id (holding j lock ∷ l) h (k, ks) =
      let a = none_holds id l h ks in ground (arith, eq_iff j id)

holders_of :
    (s : System) (id : String) (n : ℕ)
    → Inv s
    → lookup id s.volume_locks ≡ some n
    → holders id s.callers ≡ s.weights n
holders_of s id n i h =
    holders-users s.volume_locks i.apart id n s.callers h i.found ∙ sym (i.counted n)

-- However many callers ask for the locks of whatever IDs, and in whatever order they are granted, give
-- up and unlock: at most one caller holds the lock of an ID.
pub one_holder_at_once : (s : System) (id : String) → Reach s → holders id s.callers ≤ 1
one_holder_at_once s id h =
    let i = reach-Inv h in
    elim (found_or_not (lookup id s.volume_locks)) [
      | inl (n, e) ↦ let c = holders_of s id n i e in let b = i.within n in omega arith
      | inr e ↦ let c = none_holds s.volume_locks i.apart id s.callers e i.found in omega arith
    ]

-- A caller that waits can be granted its lock, by the weight of the semaphore, unless a caller holds
-- the lock of the same ID: it never waits because of another ID.
pub waits_for_holder :
    (s : System) (l r : List Caller) (id : String) (lock : ℕ)
    → Reach s
    → s.callers ≡ l ++ waiting id lock ∷ r
    → (s.weights lock + 1 ≤ lock_size) ⊎ (holders id s.callers ≡ 1)
waits_for_holder s l r id lock h e =
    let i = reach-Inv h in
    let f = AllFound-Found s.volume_locks l r (waiting id lock) (rw e at i.found) in
    let c = holders_of s id lock i f in let b = i.within lock in ground arith
