-- ===== src/Derived/Covered.antt =====
-- Proofs about the mentions in a note's text (server/src/derived/hook.ts): who is in the inbox
-- already.
use bartleby.Prelude.{
  ℕ, String, Bool, true, ◌≡◌, ◌==◌, ◌||◌, refl, ap, Option, none, some, List, [], ◌∷◌, ◌++◌, map,
  contains, arith, eq_iff, eq_self, All, Bool-cases, inl, inr, All-map_of,
}
use bartleby.Http.{Result, ok, ◌>>=◌}
use bartleby.Http.Yields.{
  Yields, ok-injective, Yields-pure, Yields-weaken, Yields-gets, Yields-bind,
}
use bartleby.Sql.{OrderBy, select, find, insert as append}
use bartleby.Sql.Rows.{select-append, keyed}
use bartleby.Sql.Permute.{contains-perm}
use bartleby.Db.{Db, UserRow, MentionRow}
use bartleby.Db.Users
use bartleby.Db.Mentions
use bartleby.Db.Mentions.{MentionInsert, refused, fresh_row, is_in}
use bartleby.Derived.{
  Deps, mentioned, body_source, with_user, row_for, is_skipped, add_mention, mention_each,
}

contains-append :
    (x : String) (xs ys : List String) → contains x (xs ++ ys) ≡ (contains x xs || contains x ys)
contains-append x [] ys = refl
contains-append x (z ∷ xs) ys = ground (arith, contains-append x xs ys)

map-append :
    (ms ns : List MentionRow) → map mentioned (ms ++ ns) ≡ map mentioned ms ++ map mentioned ns
map-append [] ns = refl
map-append (m ∷ ms) ns = ap (◌∷◌ m.mentioned_user_id) (map-append ms ns)

-- Whether the user has a row for the note's text.
abbrev pub has : String → String → List MentionRow → Bool
has name user ms = contains user (map mentioned (select (is_in name (some (body_source name))) ms))

pub has-list_for_note :
    (order : OrderBy) (name user : String) (db : Db)
    → contains user (map mentioned (Mentions.list_for_note order name (some (body_source name)) db))
      ≡ has name user db.mentions
unfolding Mentions.list_for_note
has-list_for_note order name user db = contains-perm mentioned user (order.sort-perm _ _)

has-append :
    (name user : String) (ms : List MentionRow) (m : MentionRow)
    → has name user (append m ms) ≡ (has name user ms || has name user (m ∷ []))
has-append name user ms m =
    let p = is_in name (some (body_source name)) in
    rw (select-append p ms (m ∷ []), map-append (select p ms) (select p (m ∷ [])))
      (contains-append user (map mentioned (select p ms)) (map mentioned (select p (m ∷ []))))

-- The e-mails of the loop, last first, in front of those that were done.
abbrev pub reversed : List String → List String → List String
reversed [] done = done
reversed (email ∷ emails) done = reversed emails (email ∷ done)

pub All-reversed :
    (P : String → Type 0) (xs done : List String) → All P (reversed xs done) → All P xs × All P done
All-reversed P [] done h = (tt, h)
All-reversed P (x ∷ xs) done h = let k = All-reversed P xs (x ∷ done) h in ((k.1.0, k.0), k.1.1)

module _ (deps : Deps) (name : String) (author : String) (us : List UserRow) where
  -- The user with that e-mail, if there is one, needs no new row.
  abbrev pub IsCovered : List MentionRow → String → Type 0
  IsCovered ms email =
      (user : UserRow)
      → find (keyed Users.user_email email) us ≡ some user
      → (user.id == author || has name user.id ms) ≡ true

  -- The users, what is known of the inboxes, and the e-mails that are done.
  pub record IsDone (existing done : List String) (s : Db) : Type 0 where
    pub users : s.users ≡ us
    pub known : (user : String) → contains user existing ≡ true → has name user s.mentions ≡ true
    pub covered : All (IsCovered s.mentions) done

  grown : (uuid : String → String) (now : ℕ) (email user : String) → Db → Db
  grown uuid now email user s = record s {
    mentions = append (fresh_row (row_for deps name now uuid author email user)) s.mentions;
  }

  module _ (uuid : String → String) (now : ℕ) (existing done : List String) (email : String) where
    has_new :
        (user : String) (ms : List MentionRow)
        → has name user (append (fresh_row (row_for deps name now uuid author email user)) ms)
          ≡ true
    has_new user ms =
        let row = fresh_row (row_for deps name now uuid author email user) in
        rw (has-append name user ms row, eq_self name, eq_self (body_source name), eq_self user)
          (ground arith)

    has_more :
        (user : String) (ms : List MentionRow) (m : MentionRow)
        → has name user ms ≡ true
        → has name user (append m ms) ≡ true
    has_more user ms m h = rw (has-append name user ms m, h) refl

    IsCovered-more :
        (ms : List MentionRow) (m : MentionRow) (e : String)
        → IsCovered ms e
        → IsCovered (append m ms) e
    IsCovered-more ms m e c user found = ground (arith, c user found, has_more user.id ms m)

    grown-IsDone :
        (user : UserRow) (s : Db)
        → find (keyed Users.user_email email) us ≡ some user
        → IsDone existing done s
        → IsDone (user.id ∷ existing) (email ∷ done) (grown uuid now email user.id s)
    unfolding grown
    grown-IsDone user s found d =
        let row = fresh_row (row_for deps name now uuid author email user.id) in
        record {
          users = d.users;
          known = λ x h. elim (Bool-cases (user.id == x)) [
            | inl same ↦ rw (← (eq_iff user.id x).0 same) (has_new user.id s.mentions)
            | inr other ↦ has_more x s.mentions row (d.known x (ground arith))
          ];
          covered = (
            λ other e.
                let same : user ≡ other = cc in
                rw (← same) (ground (arith, has_new user.id s.mentions)),
            All-map_of _ _ (IsCovered-more s.mentions row) done d.covered,
          );
        }

    passed-IsDone :
        (s s' : Db) (added : Option String)
        → IsCovered s.mentions email
        → IsDone existing done s
        → Path (Result (Option String) × Db) (ok none, s) (ok added, s')
        → IsDone (with_user added existing) (email ∷ done) s'
    passed-IsDone s s' added c d e =
        let (nobody, same) = ok-injective none added s s' e in
        rw (← same, ← nobody)
          (record { users = d.users; known = d.known; covered = (c, d.covered) })

    -- One round of the loop.
    add_mention-IsDone :
        (found : Option UserRow)
        → Yields
            (λ s. (Users.find_by_email email s ≡ found) × IsDone existing done s)
            (add_mention deps name now uuid author email existing found)
            (λ added s. IsDone (with_user added existing) (email ∷ done) s)
    unfolding add_mention Users.find_by_email Mentions.insert ◌>>=◌ grown
    add_mention-IsDone none = record {
      ends = λ s s' added (nobody, d) e.
          passed-IsDone s s' added (λ user found. let missing = rw d.users at nobody in cc) d e;
    }
    add_mention-IsDone (some user) = record {
      ends = λ s s' added (found, d) e.
          let here = rw d.users at found in
          elim (Bool-cases (is_skipped author user.id existing)) [
            | inl skip ↦
                passed-IsDone s s' added
                  (λ other there.
                    let same : user ≡ other = cc in rw (← same) (ground (arith, d.known user.id)))
                  d (rw skip at e)
            | inr new ↦
                elim (Bool-cases (refused (row_for deps name now uuid author email user.id) s)) [
                  | inl stop ↦ cc (rw (new, stop) at e)
                  | inr fine ↦
                      let (added_user, same) =
                        ok-injective (some user.id) added (grown uuid now email user.id s) s'
                          (rw (new, fine) at e) in
                      rw (← same, ← added_user) (grown-IsDone user s here d)
                ]
          ];
    }

  pub mention_each-IsDone :
      (uuid : String → String) (now : ℕ) (existing done emails : List String)
      → Yields
          (IsDone existing done)
          (mention_each deps name now uuid author existing emails)
          (λ inserted s. IsDone [] (reversed emails done) s)
  unfolding mention_each
  mention_each-IsDone uuid now existing done [] =
      Yields-weaken _ _ _ _ (Yields-pure (IsDone existing done) [])
        λ ids s d. record { users = d.users; known = λ user h. ground arith; covered = d.covered }
  mention_each-IsDone uuid now existing done (email ∷ emails) =
      Yields-bind _ _ _ _ _ (Yields-gets (IsDone existing done) (Users.find_by_email email))
        λ found.
          Yields-bind _ _ _ _ _ (add_mention-IsDone uuid now existing done email found) λ added.
            Yields-bind _ _ _ _ _
              (mention_each-IsDone uuid now (with_user added existing) (email ∷ done) emails)
              λ inserted. Yields-pure _ _
