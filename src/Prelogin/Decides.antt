-- ===== src/Prelogin/Decides.antt =====
-- prelogin.c: every command is decided, and which logins it lets through.
use dragonsunited_minecraft.Base.{
  ℕ, suc, ◌+◌, ◌<◌, Bool, true, false, not, ◌&&◌, ◌||◌, List, [], ◌∷◌, none, ◌≡◌, ◌⊎◌, inl, inr,
  refl, arith, ltb, leb, ◌==◌, if◌then◌else◌, length, Bytes, text, Bool-cases,
}
use dragonsunited_minecraft.Prelogin.Bools.{and_left, and_right, and_both, or_right}
use dragonsunited_minecraft.Privops.{
  LoginResult, login_fail, login_anon, login_real, anonymous_name, dodgy, in_lines, anonymous,
  handle_anonymous_login, handle_local_login, handle_login, vsf_privop_do_login,
}
use dragonsunited_minecraft.Prelogin.{
  Fate, goes_on, exits, logged_in, refuse, no_user, check_login_fails, login_answered,
  handle_pass_command,
}
use dragonsunited_minecraft.Run.{Run, ok, stop, die}
use dragonsunited_minecraft.Session.{
  Tunables, Host, Session, Event, logged, log_login, login, vsf_cmdio_write,
}
use dragonsunited_minecraft.Session.Log.{vsf_log_start_entry, vsf_log_do_log}
use dragonsunited_minecraft.Str.Cut.{str_get_char_at, str_contains_space, str_contains_unprintable}
use dragonsunited_minecraft.Str.Lines.Contains.{has_line, str_contains_line-has_line}
use dragonsunited_minecraft.Str.Lines.Walk.{lines}
use dragonsunited_minecraft.Str.Text.Compare.{limit}
use dragonsunited_minecraft.Str.Text.{str_isempty}
use dragonsunited_minecraft.Str.Text.Split.{isempty_empty}
use dragonsunited_minecraft.Sysutil.{vsf_sysutil_isalnum}

-- Where the list of users is on, a name on it is let pass if the list does not deny, and a name that
-- is not on it if the list denies.
unfoldable pub passes_list : Tunables → Bytes → Bytes → Bool
passes_list t names user =
    not t.userlist_enable
    || (if has_line (lines names) user then not t.userlist_deny else t.userlist_deny)

-- The encryption that is forced on the name. The names `ftp` and `anonymous` are asked for that of
-- anonymous logins, also where a user of the system has them.
unfoldable pub encrypted_as_forced : Tunables → Bytes → Bool → Bool
encrypted_as_forced t user ssl =
    not t.ssl_enable
    || (ssl
        || not (if anonymous_name user then t.force_anon_logins_ssl else t.force_local_logins_ssl))

-- What the settings want of the user that a session names.
unfoldable pub policy : Tunables → Bytes → Bytes → Bool → Bool
unfolding passes_list encrypted_as_forced
policy t names user ssl =
    (t.local_enable || anonymous_name user)
    && (encrypted_as_forced t user ssl && passes_list t names user)

-- A session before its login: the name that it has passed the tests, and its lists are no longer
-- than a line can be read from.
pub record Ready (t : Tunables) (s : Session) : Type 0 where
  pub admitted :
      (str_isempty s.user_str || policy t s.userlist_str s.user_str s.control_use_ssl) ≡ true
  pub unlogged : s.log_type ≡ none
  pub short_users : length s.userlist_str < limit
  pub short_banned : length s.banned_email_str < limit
  pub short_emails : length s.email_passwords_str < limit
  pub short_user : length s.user_str < limit

-- A login as the settings want it of the user that was named.
unfoldable pub secure : Tunables → Bytes → LoginResult → Session → Bool
unfolding passes_list encrypted_as_forced
secure t user login_fail s = false
secure t user login_anon s =
    (t.anonymous_enable && anonymous_name user)
    && ((not t.ssl_enable || (s.control_use_ssl || not t.force_anon_logins_ssl))
        && passes_list t s.userlist_str user)
secure t user login_real s =
    t.local_enable
    && (encrypted_as_forced t user s.control_use_ssl && passes_list t s.userlist_str user)

abbrev pub Fine : Tunables → Bytes → Fate → Type 0
Fine t user (goes_on s) = Ready t s
Fine t user (exits s) = Unit {0}
Fine t user (logged_in r s) = secure t user r s ≡ true

-- The command comes to an end that is fine for the user that was named.
abbrev pub Answers : Tunables → Bytes → Run Fate → Type 0
Answers t user r = (f : Fate) × (r ≡ ok f) × Fine t user f

get_char_first : (x : ℕ) (s : Bytes) → str_get_char_at (x ∷ s) 0 ≡ ok x
unfolding str_get_char_at
get_char_first x s = rw (let e : leb (suc (length s)) 0 ≡ false = ground arith in e) refl

dodgy-ok : (user pass : Bytes) → (b : Bool) × (dodgy user pass ≡ ok b)
unfolding dodgy
dodgy-ok [] pass = (true, refl)
dodgy-ok (x ∷ user) pass =
    let b =
      (not (vsf_sysutil_isalnum x) && (not (x == b'_') && not (x == b'.')))
      || (str_contains_space (x ∷ user)
          || str_contains_unprintable (x ∷ user)
          || ltb 128 (length pass)) in
    elim (Bool-cases (length (x ∷ user) == 0 || ltb 128 (length (x ∷ user)))) [
      | inl e ↦ (true, rw e refl)
      | inr e ↦ (b, rw e (rw (get_char_first x user) refl))
    ]

in_lines-ok :
    (names line : Bytes)
    → length names < limit
    → length line < limit
    → (b : Bool) × (in_lines names line ≡ ok b)
in_lines-ok names line h k = elim (Bool-cases (str_isempty names)) [
  | inl e ↦ (false, rw e refl)
  | inr e ↦ (has_line (lines names) line, rw e (str_contains_line-has_line names line h k))
]

must_be_local : (l a n : Bool) → (l || n) ≡ true → (l || a) ≡ true → (a && n) ≡ false → l ≡ true
must_be_local true a n p q r = refl
must_be_local false true true p q r = cc
must_be_local false true false p q r = cc
must_be_local false false n p q r = cc

module _ (t : Tunables) (h : Host) where
  -- What the decision on a login comes to.
  abbrev LoginCase : Session → Bytes → Run (LoginResult × Session) → Type 0
  LoginCase s pass r =
      ((es : List Event) × (r ≡ ok (login_fail, record s { events = es })))
      ⊎ (((t.anonymous_enable ≡ true)
            × (anonymous_name s.user_str ≡ true)
            × (r ≡ ok (login_anon, anonymous t h s pass)))
          ⊎ ((t.local_enable ≡ true)
              × ((es : List Event) × (r ≡ ok (login_real, record s { events = es })))))

  anonymous_login-cases :
      (s : Session) (pass : Bytes)
      → length s.banned_email_str < limit
      → length s.email_passwords_str < limit
      → length pass < limit
      → (handle_anonymous_login t h s pass ≡ ok (login_fail, s))
        ⊎ (handle_anonymous_login t h s pass ≡ ok (login_anon, anonymous t h s pass))
  unfolding handle_anonymous_login
  anonymous_login-cases s pass hb he hp =
      let (banned, eb) = in_lines-ok s.banned_email_str pass hb hp in
      let (known, ek) = in_lines-ok s.email_passwords_str pass he hp in
      let unknown = not (str_isempty s.email_passwords_str) && (not known || str_isempty pass) in
      elim (Bool-cases banned) [
        | inl b ↦ inl (rw eb (rw b refl))
        | inr b ↦ elim (Bool-cases unknown) [
          | inl u ↦ inl (rw (eb, ek) (rw (b, u) refl))
          | inr u ↦ inr (rw (eb, ek) (rw (b, u) refl))
        ]
      ]

  local_login-cases :
      (s : Session) (pass : Bytes)
      → t.local_enable ≡ true
      → LoginCase s pass (handle_local_login t h s pass)
  unfolding handle_local_login
  local_login-cases s pass l = elim (Bool-cases (h.succeeds s.events (login s.user_str pass))) [
    | inl e ↦ inr (inr (l, (login s.user_str pass ∷ s.events, rw e refl)))
    | inr e ↦ inl (login s.user_str pass ∷ s.events, rw e refl)
  ]

  local_reached :
      (s : Session) (pass : Bytes)
      → t.local_enable ≡ true
      → (if not t.local_enable then stop die else handle_local_login t h s pass)
        ≡ handle_local_login t h s pass
  local_reached s pass l = rw l refl

  -- The login of a user that the settings let in stops nowhere.
  login-cases :
      (s : Session) (pass : Bytes)
      → Ready t s
      → (t.local_enable || anonymous_name s.user_str) ≡ true
      → (t.local_enable || t.anonymous_enable) ≡ true
      → length pass < limit
      → LoginCase s pass (handle_login t h s pass)
  unfolding handle_login
  login-cases s pass r p q hp =
      let (bad, eb) = dodgy-ok s.user_str pass in
      elim (Bool-cases bad) [
        | inl b ↦ inl (s.events, rw eb (rw b refl))
        | inr b ↦ elim (Bool-cases (t.anonymous_enable && anonymous_name s.user_str)) [
          | inl a ↦ elim (anonymous_login-cases s pass r.short_banned r.short_emails hp) [
            | inl e ↦ inl (s.events, rw eb (rw (b, a) e))
            | inr e ↦ inr (inl (and_left _ _ a, and_right _ _ a, rw eb (rw (b, a) e)))
          ]
          | inr a ↦
              let local : t.local_enable ≡ true = must_be_local _ _ _ p q a in
              rw eb (rw (b, a) (rw (local_reached s pass local) (local_login-cases s pass local)))
        ]
      ]

  -- An attempt that fails leaves a session without a user.
  pub fails-Fine :
      (user : Bytes) (s : Session) → Ready t (no_user s) → Fine t user (check_login_fails t h s)
  unfolding check_login_fails
  fails-Fine user s r = elim (Bool-cases (leb t.max_login_fails (s.login_fails + 1))) [
    | inl e ↦ rw e tt
    | inr e ↦ rw e (record {
      admitted = rw isempty_empty refl;
      unlogged = r.unlogged;
      short_users = r.short_users;
      short_banned = r.short_banned;
      short_emails = r.short_emails;
      short_user = omega arith;
    })
  ]

  no_user-Ready : (s : Session) → Ready t s → Ready t (no_user s)
  no_user-Ready s r = record {
    admitted = rw isempty_empty refl;
    unlogged = r.unlogged;
    short_users = r.short_users;
    short_banned = r.short_banned;
    short_emails = r.short_emails;
    short_user = omega arith;
  }

  -- The same session after events that change none of its fields.
  pub Ready-events :
      (s : Session) (es : List Event) → Ready t s → Ready t (record s { events = es })
  Ready-events s es r = record {
    admitted = r.admitted;
    unlogged = r.unlogged;
    short_users = r.short_users;
    short_banned = r.short_banned;
    short_emails = r.short_emails;
    short_user = r.short_user;
  }

  -- After the decision the entry of the log is written.
  abbrev decided : LoginResult → Bool → Session → Session
  decided result fine s = record s {
    events = logged fine log_login [] ∷ s.events;
    log_type = none;
    log_str = [];
  }

  Ready-decided :
      (s : Session) (es : List Event)
      → Ready t s
      → Ready t (record s { events = es; log_type = none; log_str = [] })
  Ready-decided s es r = record {
    admitted = r.admitted;
    unlogged = refl;
    short_users = r.short_users;
    short_banned = r.short_banned;
    short_emails = r.short_emails;
    short_user = r.short_user;
  }

  secure_anon :
      (s : Session)
      → policy t s.userlist_str s.user_str s.control_use_ssl ≡ true
      → t.anonymous_enable ≡ true
      → anonymous_name s.user_str ≡ true
      → secure t s.user_str login_anon s ≡ true
  unfolding policy secure encrypted_as_forced
  secure_anon s p a n =
      let both : (encrypted_as_forced t s.user_str s.control_use_ssl
            && passes_list t s.userlist_str s.user_str)
          ≡ true =
        and_right _ _ p in
      rw (a, n) (rw n at both)

  secure_real :
      (s : Session)
      → policy t s.userlist_str s.user_str s.control_use_ssl ≡ true
      → t.local_enable ≡ true
      → secure t s.user_str login_real s ≡ true
  unfolding policy secure
  secure_real s p l = and_both l (and_right _ _ p)

  pub pass-Answers :
      (s : Session)
      → Ready t s
      → (t.local_enable || t.anonymous_enable) ≡ true
      → length s.ftp_arg_str < limit
      → Answers t s.user_str (handle_pass_command t h s)
  unfolding handle_pass_command login_answered vsf_privop_do_login vsf_log_start_entry
      vsf_log_do_log
  pass-Answers s r q hp = elim (Bool-cases (str_isempty s.user_str)) [
    | inl e ↦ (
      goes_on (vsf_cmdio_write 503 (text "Login with USER first.") s),
      rw e refl,
      Ready-events s _ r,
    )
    | inr e ↦
        let p : policy t s.userlist_str s.user_str s.control_use_ssl ≡ true =
          or_right _ _ r.admitted e in
        elim (login-cases s s.ftp_arg_str r (unfold policy in and_left _ _ p) q hp) [
          | inl (es, c) ↦
              let s1 =
                refuse (text "Login incorrect.")
                  (decided login_fail false (record s { events = es })) in
              (
                check_login_fails t h s1,
                rw e (rw c (rw (r.unlogged) refl)),
                fails-Fine s.user_str s1 (no_user-Ready s1 (Ready-decided s _ r)),
              )
          | inr (inl (a, n, c)) ↦
              let s1 = decided login_anon true (anonymous t h s s.ftp_arg_str) in
              (
                logged_in login_anon (record s1 { is_anonymous = true }),
                rw e (rw c (rw (r.unlogged) refl)),
                unfold secure in secure_anon s p a n,
              )
          | inr (inr (l, (es, c))) ↦ (
            logged_in login_real (decided login_real true (record s { events = es })),
            rw e (rw c (rw (r.unlogged) refl)),
            unfold secure in secure_real s p l,
          )
        ]
  ]
