-- ===== src/User/Access.antt =====
-- What users may do, and what the console's calls change
-- (conreg-server/src/system/user/mod.rs, lines 35 to 75 and 131 to 350).
use conreg.Prelude.{
  String, Bool, true, false, Option, none, some, List, [], ◌∷◌, ◌++◌, ◌==◌, string_eq, ◌&&◌, ◌||◌,
  not, if◌then◌else◌, ◌≡◌, ◌≢◌, ◌↔◌, refl, arith, eq_iff, eq_refl, inl, inr, Option-cases,
  Bool-cases, find, retain, contains, NoRepeat, concat, is_ok,
}
use conreg.App.{App, sync}
use conreg.Protocol.{is_success}
use conreg.Raft.{RaftRequest}
use conreg.Raft.Write.{Cluster, raft_write}
use conreg.Sql.{update_where}
use conreg.User.Entry.{User}
use conreg.User.Manager.{
  Library, admin_username, named, get_user, update_user, check_ns_permission, token_key, login,
  create_user_and_sync, update_user_and_sync, delete_user_and_sync,
}
use conreg.User.Permission.{UserPermission, to_text, append, clean}

contains-snoc :
    (ps : List String) (p q : String) → contains (ps ++ (p ∷ [])) q ≡ (contains ps q || p == q)
contains-snoc [] p q = ground arith
contains-snoc (r ∷ ps) p q = ground (arith, contains-snoc ps p q)

NoRepeat-snoc :
    (ps : List String) (p : String)
    → contains ps p ≡ false
    → NoRepeat ps
    → NoRepeat (ps ++ (p ∷ []))
NoRepeat-snoc [] p h d = (refl, tt)
NoRepeat-snoc (r ∷ ps) p h d = (
  ground (arith, contains-snoc ps p r, eq_iff r p, eq_iff p r),
  NoRepeat-snoc ps p (ground arith) d.1,
)

-- Granting permissions to a user adds just those that are not there: the user has a permission
-- afterwards exactly if it was there or is among the new ones, and no permission stands in the list
-- twice that did not before.
pub append-contains :
    (ps qs : List String)
    → ((q : String) → contains (append ps qs) q ≡ (contains ps q || contains qs q))
      × (NoRepeat ps → NoRepeat (append ps qs))
unfolding append
append-contains ps [] = (λ q. ground arith, λ d. d)
append-contains ps (p ∷ qs) = elim (Bool-cases (contains ps p)) [
  | inl there ↦
      let rest = append-contains ps qs in
      rw there (λ q. ground (arith, rest.0 q, eq_iff p q), rest.1)
  | inr fresh ↦
      let rest = append-contains (ps ++ (p ∷ [])) qs in
      rw fresh (
        λ q. ground (arith, rest.0 q, contains-snoc ps p q),
        λ d. rest.1 (NoRepeat-snoc ps p fresh d),
      )
]

contains-retain :
    (keep : String → Bool) (ps : List String) (q : String)
    → contains (retain keep ps) q ≡ (contains ps q && keep q)
contains-retain keep [] q = refl
contains-retain keep (p ∷ ps) q = ground (arith, contains-retain keep ps q, eq_iff p q)

-- Cleaning a namespace's permissions out of a list removes the three of the namespace and no other.
pub clean-contains :
    (ns : String) (ps : List String)
    → (contains (clean ns ps) (to_text (UserPermission.read_ns ns)) ≡ false)
      × (contains (clean ns ps) (to_text (UserPermission.write_ns ns)) ≡ false)
      × (contains (clean ns ps) (to_text (UserPermission.read_write_ns ns)) ≡ false)
      × ((q : String)
          → q ≢ to_text (UserPermission.read_ns ns)
          → q ≢ to_text (UserPermission.write_ns ns)
          → q ≢ to_text (UserPermission.read_write_ns ns)
          → contains (clean ns ps) q ≡ contains ps q)
unfolding clean to_text
clean-contains ns ps =
    let r = concat "r:ns:" ns in
    let w = concat "w:ns:" ns in
    let rw' = concat "rw:ns:" ns in
    let kept = contains-retain (λ p. not (r == p || w == p || rw' == p)) ps in
    (
      ground (arith, kept r, eq_refl r),
      ground (arith, kept w, eq_refl w),
      ground (arith, kept rw', eq_refl rw'),
      λ q a b d. ground (arith, kept q, eq_iff r q, eq_iff w q, eq_iff rw' q),
    )

find-permissions :
    (text name other : String) (rows : List User)
    → find
        (named other)
        (update_where (named name) (λ u. record u { permissions = some text }) rows)
      ≡ elim (find (named other) rows) [
        | none ↦ none
        | some u ↦ some (if name == other then record u { permissions = some text } else u)
      ]
find-permissions text name other [] = refl
find-permissions text name other (u ∷ rows) = ground (
  arith,
  find-permissions text name other rows,
  eq_iff u.username name,
  eq_iff u.username other,
  eq_iff name other,
)

module _ (lib : Library) where
  -- After an update of a user's permissions, that user has exactly the permissions of the new list,
  -- apart from the administrator, who has every permission; the passwords stay, and so do the
  -- permissions of every other user. The hypothesis is that JSON reads the list back.
  pub check_ns_permission-update_user :
      (name : String) (ps : List String) (s : App) (u : User)
      → get_user name s ≡ some u
      → lib.from_json (lib.to_json ps) ≡ some ps
      → ((p : UserPermission)
          → check_ns_permission lib name p (update_user lib name none (some ps) s).1
            ≡ (name == admin_username || contains ps (to_text p)))
        × ((other : String) (p : UserPermission)
            → name ≢ other
            → check_ns_permission lib other p (update_user lib name none (some ps) s).1
              ≡ check_ns_permission lib other p s)
        × (get_user name (update_user lib name none (some ps) s).1
            ≡ some (record u { permissions = some (lib.to_json ps) }))
  unfolding check_ns_permission update_user
  check_ns_permission-update_user name ps s u there json = (
    λ p. ground (arith, find-permissions (lib.to_json ps) name name s.user, eq_refl name),
    λ other p h. ground (
      arith,
      find-permissions (lib.to_json ps) name other s.user,
      eq_iff name other,
      Option-cases (find (named other) s.user),
    ),
    ground (arith, find-permissions (lib.to_json ps) name name s.user, eq_refl name),
  )

  -- The built-in user is neither updated nor deleted nor, while it is in the table, created: each of
  -- the calls fails, and hands nothing over.
  pub admin-refused :
      (c : Cluster) (password : String) (new : Option String) (ps : Option (List String)) (s : App)
      (u : User)
      → get_user admin_username s ≡ some u
      → (is_ok (update_user_and_sync lib c admin_username new ps s).0 ≡ false)
        × ((update_user_and_sync lib c admin_username new ps s).1 ≡ s)
        × (is_ok (delete_user_and_sync lib c admin_username s).0 ≡ false)
        × ((delete_user_and_sync lib c admin_username s).1 ≡ s)
        × (is_ok (create_user_and_sync lib c admin_username password s).0 ≡ false)
        × ((create_user_and_sync lib c admin_username password s).1 ≡ s)
  unfolding update_user_and_sync delete_user_and_sync create_user_and_sync
  admin-refused c password new ps s u there = (refl, refl, refl, refl, ground arith, ground arith)

  -- A login succeeds exactly for a user of the table whose password fits, if the session's entry was
  -- taken by the nodes.
  pub login_iff :
      (c : Cluster) (token name password : String) (s : App)
      → (is_ok (login lib c token name password s).0 ≡ true) ↔ (
          (u : User) × (get_user name s ≡ some u)
          × (lib.verify password u.password ≡ true)
          × (is_success (
                raft_write c (
                  RaftRequest.cache_write
                    (token_key token)
                    (lib.principal u.username)
                    (some 604_800)))
              ≡ true))
  unfolding login sync
  login_iff c token name password s = (
    λ h. elim (Option-cases (get_user name s)) [
      | inl e ↦ absurd (ground arith)
      | inr (u, e) ↦ (u, e, ground arith, ground arith)
    ],
    λ (u, e, v, w). ground arith,
  )
