-- ===== src/Prelogin/User.antt =====
-- prelogin.c, `handle_user_command`: the tests of a name.
use dragonsunited_minecraft.Prelogin.Bools.{
  or_true, and_both, either_true, no_force, choice_true, choice_false,
}
use dragonsunited_minecraft.Prelogin.Decides.{
  passes_list, encrypted_as_forced, policy, Ready, Answers, fails-Fine, Ready-events, pass-Answers,
}
use dragonsunited_minecraft.Base.{
  ◌<◌, if◌then◌else◌, Bool, true, false, not, ◌&&◌, ◌||◌, List, ◌≡◌, inl, inr, refl, arith, length,
  Bytes, text, Bool-cases,
}
use dragonsunited_minecraft.Privops.{anonymous_name}
use dragonsunited_minecraft.Prelogin.{
  refuse, no_user, check_login_fails, handle_pass_command, user_accepted, user_listed, user_checked,
  handle_user_command,
}
use dragonsunited_minecraft.Session.{Tunables, Host, Session, Event}
use dragonsunited_minecraft.Str.Cut.{str_upper}
use dragonsunited_minecraft.Str.Lines.Contains.{has_line, str_contains_line-has_line}
use dragonsunited_minecraft.Str.Lines.Walk.{lines}
use dragonsunited_minecraft.Str.Text.Compare.{limit}
use dragonsunited_minecraft.Str.Text.Split.{isempty_empty}

module _ (t : Tunables) (h : Host) where
  user_accepted-Answers :
      (s : Session) (is_anon : Bool)
      → Ready t s
      → (t.local_enable || t.anonymous_enable) ≡ true
      → Answers t s.user_str (user_accepted t h s is_anon)
  unfolding user_accepted
  user_accepted-Answers s is_anon r q = elim (Bool-cases (is_anon && t.no_anon_password)) [
    | inl e ↦ rw e (
        pass-Answers t h (record s { ftp_arg_str = text "<no password>" })
          (record {
            admitted = r.admitted;
            unlogged = r.unlogged;
            short_users = r.short_users;
            short_banned = r.short_banned;
            short_emails = r.short_emails;
            short_user = r.short_user;
          })
          q (omega arith))
    | inr e ↦ rw e (_, refl, Ready-events t h s _ r)
  ]

  list_passes :
      (located deny : Bool)
      → ((located && deny) || (not located && not deny)) ≡ false
      → (if located then not deny else deny) ≡ true
  list_passes true true e = cc
  list_passes true false e = refl
  list_passes false true e = refl
  list_passes false false e = cc

  -- With every test passed but that of the list.
  user_checked-Answers :
      (s : Session) (is_anon : Bool)
      → Ready t (no_user s)
      → length s.user_str < limit
      → (passes_list t s.userlist_str s.user_str ≡ true → Ready t s)
      → (t.local_enable || t.anonymous_enable) ≡ true
      → Answers t s.user_str (user_checked t h s is_anon)
  unfolding user_checked user_listed
  user_checked-Answers s is_anon r hp ready q =
      let there = str_contains_line-has_line s.userlist_str s.user_str r.short_users hp in
      let located = has_line (lines s.userlist_str) s.user_str in
      let f' = check_login_fails t h (refuse (text "Permission denied.") s) in
      elim (Bool-cases t.userlist_enable) [
        | inl e ↦
            elim (Bool-cases
              ((located && t.userlist_deny) || (not located && not t.userlist_deny))) [
                | inl d ↦ (
                  f',
                  choice_true _ e (rw there (choice_true _ d refl)),
                  fails-Fine t h s.user_str _ (Ready-events t h (no_user s) _ r),
                )
                | inr d ↦
                    let pass : passes_list t s.userlist_str s.user_str ≡ true =
                      unfold passes_list in or_true _ _ (list_passes located t.userlist_deny d) in
                    let (f, k, fine) = user_accepted-Answers s is_anon (ready pass) q in
                    (f, choice_true _ e (rw there (choice_false _ d k)), fine)
              ]
        | inr e ↦
            let pass : passes_list t s.userlist_str s.user_str ≡ true =
              unfold passes_list in rw e refl in
            let (f, k, fine) = user_accepted-Answers s is_anon (ready pass) q in
            (f, choice_false _ e k, fine)
      ]

  -- The tests of `USER` that let a name pass are the policy.
  tests_pass :
      (names user : Bytes) (ctl : Bool)
      → (not t.local_enable && not (anonymous_name user)) ≡ false
      → ((t.ssl_enable && not ctl) && (not (anonymous_name user) && t.force_local_logins_ssl))
        ≡ false
      → ((t.ssl_enable && not ctl) && (anonymous_name user && t.force_anon_logins_ssl)) ≡ false
      → passes_list t names user ≡ true
      → policy t names user ctl ≡ true
  unfolding policy encrypted_as_forced
  tests_pass names user ctl a b c l = elim (Bool-cases (anonymous_name user)) [
    | inl n ↦
        and_both (either_true _ _ a)
          (and_both (rw n (no_force t.ssl_enable ctl t.force_anon_logins_ssl (rw n at c))) l)
    | inr n ↦
        and_both (either_true _ _ a)
          (and_both (rw n (no_force t.ssl_enable ctl t.force_local_logins_ssl (rw n at b))) l)
  ]

  -- The session with the user that is named, where the list passes too.
  tests-Ready :
      (s : Session)
      → Ready t s
      → length s.ftp_arg_str < limit
      → (not t.local_enable && not (anonymous_name s.ftp_arg_str)) ≡ false
      → ((t.ssl_enable && not s.control_use_ssl)
          && (not (anonymous_name s.ftp_arg_str) && t.force_local_logins_ssl))
        ≡ false
      → ((t.ssl_enable && not s.control_use_ssl)
          && (anonymous_name s.ftp_arg_str && t.force_anon_logins_ssl))
        ≡ false
      → passes_list t s.userlist_str s.ftp_arg_str ≡ true
      → Ready t (record s { user_str = s.ftp_arg_str; ftp_arg_str = str_upper s.ftp_arg_str })
  tests-Ready s r hp a b c l = record {
    admitted = or_true _ _ (tests_pass s.userlist_str s.ftp_arg_str s.control_use_ssl a b c l);
    unlogged = r.unlogged;
    short_users = r.short_users;
    short_banned = r.short_banned;
    short_emails = r.short_emails;
    short_user = hp;
  }

  pub user-Answers :
      (s : Session)
      → Ready t s
      → (t.local_enable || t.anonymous_enable) ≡ true
      → length s.ftp_arg_str < limit
      → Answers t s.ftp_arg_str (handle_user_command t h s)
  unfolding handle_user_command
  user-Answers s0 r q hp =
      let is_anon = anonymous_name s0.ftp_arg_str in
      let ctl = s0.control_use_ssl in
      let s = record s0 { user_str = s0.ftp_arg_str; ftp_arg_str = str_upper s0.ftp_arg_str } in
      let unnamed : (es : List Event) → Ready t (no_user (record s { events = es })) = λ es.
        record {
          admitted = rw isempty_empty refl;
          unlogged = r.unlogged;
          short_users = r.short_users;
          short_banned = r.short_banned;
          short_emails = r.short_emails;
          short_user = omega arith;
        } in
      elim (Bool-cases (not t.local_enable && not is_anon)) [
        | inl a ↦ (_, choice_true _ a refl, unnamed _)
        | inr a ↦
            elim (Bool-cases
              (is_anon && (ctl && (not t.allow_anon_ssl && not t.force_anon_logins_ssl)))) [
                | inl b ↦ (_, choice_false _ a (choice_true _ b refl), unnamed _)
                | inr b ↦
                    elim (Bool-cases
                      ((t.ssl_enable && not ctl) && (not is_anon && t.force_local_logins_ssl))) [
                        | inl c ↦
                            (_, choice_false _ a (choice_false _ b (choice_true _ c refl)), tt)
                        | inr c ↦
                            elim (Bool-cases
                              ((t.ssl_enable && not ctl) && (is_anon && t.force_anon_logins_ssl))) [
                                | inl d ↦ (
                                  _,
                                  choice_false _ a
                                      (choice_false _ b (choice_false _ c (choice_true _ d refl))),
                                  tt,
                                )
                                | inr d ↦
                                    let ready = tests-Ready s0 r hp a c d in
                                    let (f, k, fine) =
                                      user_checked-Answers s is_anon (unnamed s.events) hp ready
                                        q in
                                    (
                                      f,
                                      choice_false _ a (
                                          choice_false _ b (choice_false _ c (choice_false _ d k))),
                                      fine,
                                    )
                              ]
                      ]
              ]
      ]

  -- For settings that enable some login, and a session before its login whose name has passed the
  -- tests and whose lists and argument a line can be read from, `USER` and `PASS` return: the process
  -- goes on with such a session, ends, or comes to a login. A login of a real user is only where
  -- local logins are enabled, an anonymous one only where these are and the name is `ftp` or
  -- `anonymous`. Either one is only of a name that the list of users lets pass, and over the
  -- encryption that is forced on it: on anonymous logins for those two names, on local logins for
  -- every other name.
  pub logins-Answers :
      (s : Session)
      → Ready t s
      → (t.local_enable || t.anonymous_enable) ≡ true
      → length s.ftp_arg_str < limit
      → Answers t s.ftp_arg_str (handle_user_command t h s)
        × Answers t s.user_str (handle_pass_command t h s)
  logins-Answers s r q hp = (user-Answers s r q hp, pass-Answers t h s r q hp)
