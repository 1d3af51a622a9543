-- ===== src/Prover/Feed.antt =====
-- The activity feed under every sequence of operations on the jobs.
use strkd.Prelude.{
  ℕ, ◌+◌, ◌%◌, ◌^◌, ◌≤◌, ◌≡◌, refl, String, Option, none, some, List, [], ◌∷◌, ◌++◌, arith, length,
  ltb, Bool-cases, inl, inr,
}
use strkd.Prover.Jobs.{
  Job, JobStatus, Activity, Jobs, activity_cap, next_seq, trim, new, push_activity, get_in, create,
  edit, set_status, succeed, fail,
}

-- Each entry's number is one more than the number before it, as a `u64`.
abbrev pub Successive : List Activity → Type 0
Successive [] = Unit {0}
Successive (a ∷ []) = Unit {0}
Successive (a ∷ b ∷ feed) = (b.seq ≡ (a.seq + 1) % 2 ^ 64) × Successive (b ∷ feed)

abbrev pub IsFeed : List Activity → Type 0
IsFeed feed = Successive feed × (length feed ≤ activity_cap)

tail-Successive : (a : Activity) (feed : List Activity) → Successive (a ∷ feed) → Successive feed
tail-Successive a [] h = tt
tail-Successive a (b ∷ feed) h = h.1

append-Successive :
    (feed : List Activity) (x : Activity)
    → Successive feed
    → x.seq ≡ next_seq feed
    → Successive (feed ++ (x ∷ []))
unfolding next_seq
append-Successive [] x h e = tt
append-Successive (a ∷ []) x h e = (e, tt)
append-Successive (a ∷ b ∷ feed) x h e = (h.0, append-Successive (b ∷ feed) x h.1 e)

trim-IsFeed : (feed : List Activity) → Successive feed → IsFeed (trim feed)
unfolding trim
trim-IsFeed [] h = (tt, omega arith)
trim-IsFeed (a ∷ feed) h = elim (Bool-cases (ltb activity_cap (length (a ∷ feed)))) [
  | inl e ↦ rw e (trim-IsFeed feed (tail-Successive a feed h))
  | inr e ↦ rw e (h, ground arith)
]

module _ {V : Type 0} where
  push_activity-IsFeed :
      (job : Job V) (feed : List Activity) → IsFeed feed → IsFeed (push_activity job feed)
  unfolding push_activity
  push_activity-IsFeed job feed h = trim-IsFeed _ (append-Successive feed _ h.0 refl)

  -- One operation on the jobs.
  pub data Step (id_of : ℕ → String) : Jobs V → Jobs V → Type 0 where
    create_step :
        (now : ℕ) (label : Option String) (s : Jobs V) → Step id_of s (create id_of now label s).0
    status_step :
        (id : String) (status : JobStatus) (s : Jobs V) → Step id_of s (set_status id status s)
    succeed_step : (id : String) (result : V) (s : Jobs V) → Step id_of s (succeed id result s)
    fail_step : (id error : String) (s : Jobs V) → Step id_of s (fail id error s)

  pub data Steps (id_of : ℕ → String) : Jobs V → Jobs V → Type 0 where
    stay : (s : Jobs V) → Steps id_of s s
    step : (s t u : Jobs V) → Steps id_of s t → Step id_of t u → Steps id_of s u

  edit-IsFeed :
      (id : String) (f : Job V → Job V) (s : Jobs V)
      → IsFeed s.activity
      → IsFeed (edit id f s).activity
  unfolding edit
  edit-IsFeed id f s h = go (get_in id s.jobs) refl
    where
      go : (o : Option (Job V)) → get_in id s.jobs ≡ o → IsFeed (edit id f s).activity
      go none e = rw (edit, e) h
      go (some j) e = rw (edit, e) (push_activity-IsFeed (f j) s.activity h)

  Step-IsFeed :
      (id_of : ℕ → String) (s t : Jobs V) → Step id_of s t → IsFeed s.activity → IsFeed t.activity
  unfolding create set_status succeed fail
  Step-IsFeed id_of s _ (create_step now label _) h = push_activity-IsFeed _ s.activity h
  Step-IsFeed id_of s _ (status_step id status _) h = edit-IsFeed id _ s h
  Step-IsFeed id_of s _ (succeed_step id result _) h = edit-IsFeed id _ s h
  Step-IsFeed id_of s _ (fail_step id error _) h = edit-IsFeed id _ s h

  -- Whatever operations follow the start, in whatever order, the feed holds at most 100 entries, and
  -- their numbers follow one another.
  pub Steps-IsFeed :
      (id_of : ℕ → String) (start_seq : ℕ) (s : Jobs V)
      → Steps id_of (new start_seq) s
      → IsFeed s.activity
  unfolding new
  Steps-IsFeed id_of start_seq s (stay _) = (tt, omega arith)
  Steps-IsFeed id_of start_seq s (step _ t _ before last) =
      Step-IsFeed id_of t s last (Steps-IsFeed id_of start_seq t before)
