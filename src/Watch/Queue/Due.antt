-- ===== src/Watch/Queue/Due.antt =====
-- What `due` hands out and what it leaves pending.
use zsec_shield.Prelude.{
  ℕ, suc, zero, ◌+◌, ◌≤◌, ◌≡◌, inl, inr, String, Bool, true, false, ◌||◌, Option, none, some, List,
  [], ◌∷◌, refl, ap, arith, leb, if◌then◌else◌, All, Option-cases, subst, sym, str_eq, eq_iff,
  text_in, map, keep, length, take, leb_text, ◌∙◌, length-take,
}
use zsec_shield.Prelude.Sort.{sorted, insert}
use zsec_shield.Prelude.Dict.{Dict, IsDict, find, remove, find-remove}
use zsec_shield.Watch.Queue.{Queue, PendingPath, is_due, due_keys, limited, pop_keys, take_due}
use zsec_shield.Watch.Queue.Ledger.{pop_keys-cons, length-pop_keys}

-- An entry after `due`: gone when it was due.
abbrev pub not_due : ℕ → Option PendingPath → Option PendingPath
not_due now none = none
not_due now (some p) = if leb p.due_at now then none else some p

abbrev due_entry : ℕ → Option PendingPath → Bool
due_entry now none = false
due_entry now (some p) = leb p.due_at now

text_in-insert :
    (le : String → String → Bool) (k x : String) (ys : List String)
    → text_in k (insert le x ys) ≡ (str_eq k x || text_in k ys)
unfolding insert
text_in-insert le k x [] = refl
text_in-insert le k x (y ∷ ys) = ground (arith, text_in-insert le k x ys)

text_in-sorted :
    (le : String → String → Bool) (k : String) (xs : List String)
    → text_in k (sorted le xs) ≡ text_in k xs
unfolding sorted
text_in-sorted le k [] = refl
text_in-sorted le k (x ∷ xs) =
    ground (arith, text_in-insert le k x (sorted le xs), text_in-sorted le k xs)

text_in-due :
    (now : ℕ) (k : String) (d : Dict PendingPath)
    → IsDict d
    → text_in k (map (λ (entry : String × PendingPath). entry.0) (keep (is_due now) d))
      ≡ due_entry now (find k d)
unfolding find
text_in-due now k [] u = refl
text_in-due now k ((j, p) ∷ d) u = ground (arith, text_in-due now k d u.1, eq_iff j k, eq_iff k j)

find-pop_keys :
    (k : String) (keys : List String) (q : Queue)
    → find k (pop_keys keys q).1.pending ≡ (if text_in k keys then none else find k q.pending)
unfolding pop_keys
find-pop_keys k [] q = refl
find-pop_keys k (key ∷ keys) q =
    ap (λ (r : Queue). find k r.pending) (pop_keys-cons key keys q)
    ∙ ground (
      arith,
      find-pop_keys k keys (record q { pending = remove key q.pending }),
      find-remove key k q.pending,
      eq_iff k key,
      eq_iff key k,
    )

pop_keys_hit :
    (key : String) (keys : List String) (q : Queue) (p : PendingPath)
    → find key q.pending ≡ some p
    → (pop_keys (key ∷ keys) q).0
      ≡ p ∷ (pop_keys keys (record q { pending = remove key q.pending })).0
unfolding pop_keys
pop_keys_hit key keys q p f = ground arith

pop_keys_miss :
    (key : String) (keys : List String) (q : Queue)
    → find key q.pending ≡ none
    → (pop_keys (key ∷ keys) q).0 ≡ (pop_keys keys (record q { pending = remove key q.pending })).0
unfolding pop_keys
pop_keys_miss key keys q f = ground arith

still_pending :
    (key k : String) (d : Dict PendingPath) (p : PendingPath)
    → find k (remove key d) ≡ some p
    → find k d ≡ some p
still_pending key k d p f = ground (arith, find-remove key k d)

pop_keys-All :
    (P : PendingPath → Type 0) (keys : List String) (q : Queue)
    → ((k : String) (p : PendingPath) → text_in k keys ≡ true → find k q.pending ≡ some p → P p)
    → All P (pop_keys keys q).0
pop_keys-All P [] q h = unfold pop_keys in tt
pop_keys-All P (key ∷ keys) q h =
    let rest =
      pop_keys-All P keys (record q { pending = remove key q.pending })
        (λ k p i f. h k p (ground arith) (still_pending key k q.pending p f)) in
    elim (Option-cases (find key q.pending)) [
      | inl n ↦ subst (All P) (sym (pop_keys_miss key keys q n)) rest
      | inr (p, f) ↦
          subst (All P) (sym (pop_keys_hit key keys q p f))
            (h key p (ground (arith, eq_iff key key)) f, rest)
    ]

due_from_text_in :
    (now : ℕ) (k : String) (q : Queue) (p : PendingPath)
    → IsDict q.pending
    → text_in k (due_keys now q) ≡ true
    → find k q.pending ≡ some p
    → p.due_at ≤ now
unfolding due_keys
due_from_text_in now k q p u i f = ground (
  arith,
  text_in-due now k q.pending u,
  text_in-sorted leb_text k
      (map (λ (entry : String × PendingPath). entry.0) (keep (is_due now) q.pending)),
)

text_in-take :
    (n : ℕ) (k : String) (xs : List String) → text_in k (take n xs) ≡ true → text_in k xs ≡ true
text_in-take zero k xs h = cc
text_in-take (suc n) k [] h = cc
text_in-take (suc n) k (x ∷ xs) h = ground (arith, text_in-take n k xs)

text_in-limited :
    (m : Option ℕ) (k : String) (xs : List String)
    → text_in k (limited m xs) ≡ true
    → text_in k xs ≡ true
text_in-limited none k xs h = h
text_in-limited (some n) k xs h = text_in-take n k xs h

-- Without a maximum, `due` hands out as many paths as leave the pending dict, each of them due; a key is
-- gone afterwards when its path was due, and otherwise its entry is as before.
pub take_due_exact :
    (now : ℕ) (q : Queue)
    → IsDict q.pending
    → All (λ (p : PendingPath). p.due_at ≤ now) (take_due now none q).0
      × (length (take_due now none q).0 + length (take_due now none q).1.pending ≡ length q.pending)
      × ((k : String) → find k (take_due now none q).1.pending ≡ not_due now (find k q.pending))
unfolding take_due
take_due_exact now q u = (
  pop_keys-All _ (due_keys now q) q (λ k p i f. due_from_text_in now k q p u i f),
  length-pop_keys (due_keys now q) q u,
  λ k.
      unfold due_keys in
      ground (
        arith,
        find-pop_keys k (due_keys now q) q,
        text_in-due now k q.pending u,
        text_in-sorted leb_text k
            (map (λ (entry : String × PendingPath). entry.0) (keep (is_due now) q.pending)),
      ),
)

length-pop_keys-le : (keys : List String) (q : Queue) → length (pop_keys keys q).0 ≤ length keys
unfolding pop_keys
length-pop_keys-le [] q = omega arith
length-pop_keys-le (key ∷ keys) q =
    ground (arith, length-pop_keys-le keys (record q { pending = remove key q.pending }))

-- With a maximum, at most so many paths are handed out, each of them due, and the rest stays pending.
pub take_due_limited :
    (now n : ℕ) (q : Queue)
    → IsDict q.pending
    → (length (take_due now (some n) q).0 ≤ n)
      × All (λ (p : PendingPath). p.due_at ≤ now) (take_due now (some n) q).0
      × (length (take_due now (some n) q).0 + length (take_due now (some n) q).1.pending
          ≡ length q.pending)
unfolding take_due
take_due_limited now n q u = (
  omega (arith, length-pop_keys-le (take n (due_keys now q)) q, length-take n (due_keys now q)),
  pop_keys-All _ (take n (due_keys now q)) q
      (λ k p i f. due_from_text_in now k q p u (text_in-take n k (due_keys now q) i) f),
  length-pop_keys (take n (due_keys now q)) q u,
)
