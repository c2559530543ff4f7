-- ===== src/Secutil/Order.antt =====
-- The order in which privileges are given up.
use dragonsunited_minecraft.Base.{
  ℕ, Bool, true, false, not, ◌&&◌, List, [], ◌∷◌, Option, none, some, ◌==◌, if◌then◌else◌, ◌≡◌, ◌⊎◌,
  inl, inr, refl, ap, arith, Bytes, Bool-cases,
}
use dragonsunited_minecraft.Run.{Run, ok, stop, bug, ◌>>=◌, die_if}
use dragonsunited_minecraft.Privops.Sockets.Allowed.{OrDies, bind-OrDies}
use dragonsunited_minecraft.Str.Text.{str_isempty}
use dragonsunited_minecraft.Secutil.{
  Options, Step, initgroups, clear_supp_groups, setegid, seteuid, seteuid_numeric, setegid_numeric,
  chdir, chroot, set_no_fds, set_no_procs, adopt_capabilities, keep_capabilities, setgid, setuid,
  System, perform, perform_if, lower, raise, enter_extra, enter, become, give_up, credentials,
  or_home, vsf_secutil_change_credentials,
}
use dragonsunited_minecraft.Secutil.Standing.{
  step-At, at_start, after, standing, legal, AllLegal, At, Standing,
}

module _ (y : System) where
  perform-At :
      (c : Step) (s : Standing) (cs : List Step)
      → legal c s ≡ true
      → At s cs
      → OrDies (At (after c s)) (perform y c cs)
  perform-At c s cs h a = elim (Bool-cases (y.succeeds cs c)) [
    | inl e ↦ inr (c ∷ cs, rw e refl, step-At c s cs h a)
    | inr e ↦ inl (rw e refl)
  ]

  perform_if-At :
      (b : Bool) (c : Step) (s : Standing) (cs : List Step)
      → legal c s ≡ true
      → At s cs
      → OrDies (At (if b then after c s else s)) (perform_if y b c cs)
  perform_if-At true c s cs h a = perform-At c s cs h a
  perform_if-At false c s cs h a = inr (cs, refl, a)

  -- A standing with the groups given up.
  abbrev inside : Bool → Bool → Standing
  inside low jail = record {
    groups = true;
    lowered = low;
    jailed = jail;
    group_set = false;
    user_set = false;
  }

  lower-At :
      (b : Bool) (cs : List Step)
      → At (inside false false) cs
      → OrDies (At (inside b false)) (lower y b cs)
  unfolding lower legal after
  lower-At true cs a =
      bind-OrDies (perform y setegid cs) _ (perform-At setegid (inside false false) cs refl a)
        (λ cs' a'. perform-At seteuid (inside false false) cs' refl a')
  lower-At false cs a = inr (cs, refl, a)

  raise-At :
      (b : Bool) (cs : List Step)
      → At (inside b false) cs
      → OrDies (At (inside false false)) (raise y b cs)
  unfolding raise legal after
  raise-At true cs a =
      bind-OrDies (perform y seteuid_numeric cs) _
        (perform-At seteuid_numeric (inside true false) cs refl a)
        (λ cs' a'. perform-At setegid_numeric (inside false false) cs' refl a')
  raise-At false cs a = inr (cs, refl, a)

  extra-At :
      (b jail : Bool) (d : Option Bytes) (cs : List Step)
      → At (inside b false) cs
      → OrDies (At (inside b false)) (enter_extra y jail d cs)
  unfolding enter_extra
  extra-At b jail none cs a = inr (cs, refl, a)
  extra-At b jail (some d) cs a = elim (Bool-cases (str_isempty d)) [
    | inl e ↦ rw e (inr (cs, refl, a))
    | inr e ↦ elim (Bool-cases (not (y.succeeds cs (chdir d)) && jail)) [
      | inl f ↦ inl (rw (e, f) refl)
      | inr f ↦ inr (
        chdir d ∷ cs,
        rw (e, f) refl,
        (unfold legal after in step-At (chdir d) (inside b false) cs refl a),
      )
    ]
  ]

  -- Who a process is at the end: the user, in the jail if there is one; or root with its groups
  -- given up, which only happens for capabilities that the system does not have for others.
  abbrev pub GivenUp : ℕ → Options → Standing → Type 0
  GivenUp caps options s =
      (s.groups ≡ true)
      × (s.lowered ≡ false)
      × (s.jailed ≡ options.chroot)
      × (((s.group_set ≡ true) × (s.user_set ≡ true))
          ⊎ (((caps == 0) ≡ false)
              × ((y.has_capabilities && y.has_capabilities_as_non_root) ≡ false)))

  -- The process has made its calls in a legal order, and stands as it should.
  abbrev pub Done : ℕ → Options → List Step → Type 0
  Done caps options cs = AllLegal cs × GivenUp caps options (standing cs)

  groups-At :
      (b : Bool)
      → OrDies
          (At (inside false false))
          (perform y (if b then initgroups else clear_supp_groups) [])
  unfolding legal after
  groups-At true = perform-At initgroups at_start [] refl (unfold standing in refl, tt)
  groups-At false = perform-At clear_supp_groups at_start [] refl (unfold standing in refl, tt)

  jail-At :
      (b : Bool) (cs : List Step)
      → At (inside false false) cs
      → OrDies (At (inside false b)) (perform_if y b chroot cs)
  unfolding legal after
  jail-At true cs a = perform-At chroot (inside false false) cs refl a
  jail-At false cs a = inr (cs, refl, a)

  chdir-At :
      (b : Bool) (d : Bytes) (cs : List Step)
      → At (inside b false) cs
      → OrDies (At (inside b false)) (perform y (chdir d) cs)
  unfolding legal after
  chdir-At b d cs a = perform-At (chdir d) (inside b false) cs refl a

  enter-At :
      (options : Options) (dir : Bytes) (ext_dir : Option Bytes)
      → OrDies (At (inside false options.chroot)) (enter y options dir ext_dir [])
  unfolding enter
  enter-At options dir ext_dir =
      bind-OrDies (perform y (if options.use_groups then initgroups else clear_supp_groups) []) _
        (groups-At options.use_groups)
        (λ cs1 a1.
          bind-OrDies (lower y options.change_euid cs1) _ (lower-At options.change_euid cs1 a1)
            (λ cs2 a2.
              bind-OrDies (perform y (chdir dir) cs2) _ (chdir-At options.change_euid dir cs2 a2)
                (λ cs3 a3.
                  bind-OrDies (enter_extra y options.chroot ext_dir cs3) _
                    (extra-At options.change_euid options.chroot ext_dir cs3 a3)
                    (λ cs4 a4.
                      bind-OrDies (raise y options.change_euid cs4) _
                        (raise-At options.change_euid cs4 a4)
                        (λ cs5 a5. jail-At options.chroot cs5 a5)))))

  -- The user's identity, in a jail or not.
  abbrev as_user : Bool → Bool → Standing
  as_user jail done = record {
    groups = true;
    lowered = false;
    jailed = jail;
    group_set = true;
    user_set = done;
  }

  -- A step that changes nothing of the standing and is always legal.
  keep-At :
      (b jail : Bool) (cs : List Step)
      → At (inside false jail) cs
      → OrDies (At (inside false jail)) (perform_if y b keep_capabilities cs)
  unfolding legal after
  keep-At true jail cs a = perform-At keep_capabilities (inside false jail) cs refl a
  keep-At false jail cs a = inr (cs, refl, a)

  adopt-At :
      (b : Bool) (caps : ℕ) (s : Standing) (cs : List Step)
      → At s cs
      → OrDies (At s) (perform_if y b (adopt_capabilities caps) cs)
  unfolding legal after
  adopt-At true caps s cs a = perform-At (adopt_capabilities caps) s cs refl a
  adopt-At false caps s cs a = inr (cs, refl, a)

  limit-At :
      (b : Bool) (s : Standing) (cs : List Step)
      → At s cs
      → OrDies (At s) (perform_if y b set_no_procs cs)
  unfolding legal after
  limit-At true s cs a = perform-At set_no_procs s cs refl a
  limit-At false s cs a = inr (cs, refl, a)

  fds-At :
      (b : Bool) (s : Standing) (cs : List Step)
      → At s cs
      → OrDies (At s) (perform_if y b set_no_fds cs)
  unfolding legal after
  fds-At true s cs a = perform-At set_no_fds s cs refl a
  fds-At false s cs a = inr (cs, refl, a)

  checked :
      (b : Bool) (s : Standing) (cs : List Step)
      → At s cs
      → OrDies (At s) (die_if b >>= λ ignored. ok cs)
  checked true s cs a = inl refl
  checked false s cs a = inr (cs, refl, a)

  become-At :
      (wants : Bool) (caps : ℕ) (options : Options) (cs : List Step)
      → At (inside false options.chroot) cs
      → OrDies (At (as_user options.chroot true)) (become y wants caps options cs)
  unfolding become legal after
  become-At wants caps options cs a =
      let jail = options.chroot in
      bind-OrDies (perform_if y wants keep_capabilities cs) _ (keep-At wants jail cs a) (λ cs1 a1.
        bind-OrDies (perform y setgid cs1) _ (perform-At setgid (inside false jail) cs1 refl a1)
          (λ cs2 a2.
            bind-OrDies (perform y setuid cs2) _
              (perform-At setuid (as_user jail false) cs2 refl a2)
              (λ cs3 a3.
                bind-OrDies (perform_if y wants (adopt_capabilities caps) cs3) _
                  (adopt-At wants caps (as_user jail true) cs3 a3)
                  (λ cs4 a4.
                    bind-OrDies (perform_if y options.no_procs set_no_procs cs4) _
                      (limit-At options.no_procs (as_user jail true) cs4 a4)
                      (λ cs5 a5.
                        checked (jail && y.write_access cs5) (as_user jail true) cs5 a5)))))

  Done-user :
      (caps : ℕ) (options : Options) (cs : List Step)
      → At (as_user options.chroot true) cs
      → Done caps options cs
  Done-user caps options cs (e, all) = (
    all,
    (
      ap (λ s. s.groups) e,
      ap (λ s. s.lowered) e,
      ap (λ s. s.jailed) e,
      inl (ap (λ s. s.group_set) e, ap (λ s. s.user_set) e),
    ),
  )

  Done-root :
      (caps : ℕ) (options : Options) (cs : List Step)
      → (caps == 0) ≡ false
      → (y.has_capabilities && y.has_capabilities_as_non_root) ≡ false
      → At (inside false options.chroot) cs
      → Done caps options cs
  Done-root caps options cs h k (e, all) =
      (all, (ap (λ s. s.groups) e, ap (λ s. s.lowered) e, ap (λ s. s.jailed) e, inr (h, k)))

  weaken :
      {P Q : List Step → Type 0} (r : Run (List Step))
      → OrDies P r
      → ((cs : List Step) → P cs → Q cs)
      → OrDies Q r
  weaken r (inl e) f = inl e
  weaken r (inr (cs, e, p)) f = inr (cs, e, f cs p)

  wanted : (b : Bool) → not b ≡ true → b ≡ false
  wanted true e = absurd (ground arith)
  wanted false e = refl

  -- With capabilities wanted or not, and what the system has of them.
  by_capabilities :
      (wants has others : Bool) (caps : ℕ) (options : Options) (cs : List Step)
      → At (inside false options.chroot) cs
      → ((cs' : List Step)
          → wants ≡ true
          → (has && others) ≡ false
          → At (inside false options.chroot) cs'
          → Done caps options cs')
      → OrDies (Done caps options) (
          if wants && not has
          then ok cs
          else if wants && not others
          then perform y (adopt_capabilities caps) cs
          else become y wants caps options cs)
  by_capabilities false has others caps options cs a root =
      weaken (become y false caps options cs) (become-At false caps options cs a)
        (Done-user caps options)
  by_capabilities true false others caps options cs a root = inr (cs, refl, root cs refl refl a)
  by_capabilities true true false caps options cs a root =
      weaken (perform y (adopt_capabilities caps) cs)
        (adopt-At true caps (inside false options.chroot) cs a) (λ cs' a'. root cs' refl refl a')
  by_capabilities true true true caps options cs a root =
      weaken (become y true caps options cs) (become-At true caps options cs a)
        (Done-user caps options)

  give_up-Done :
      (caps : ℕ) (options : Options) (cs : List Step)
      → At (inside false options.chroot) cs
      → OrDies (Done caps options) (give_up y caps options cs)
  unfolding give_up
  give_up-Done caps options cs0 a0 =
      let jail = inside false options.chroot in
      bind-OrDies (perform_if y options.no_fds set_no_fds cs0) _ (fds-At options.no_fds jail cs0 a0)
        (λ cs a.
          by_capabilities (not (caps == 0)) y.has_capabilities y.has_capabilities_as_non_root caps
            options cs a (λ cs' e f a'. Done-root caps options cs' (wanted (caps == 0) e) f a'))

  credentials-Done :
      (home dir ext_dir : Option Bytes) (caps : ℕ) (options : Options)
      → OrDies (Done caps options) (credentials y home dir ext_dir caps options)
  unfolding credentials
  credentials-Done none dir ext_dir caps options = inl refl
  credentials-Done (some home) dir ext_dir caps options =
      bind-OrDies (enter y options (or_home dir home) ext_dir []) _
        (enter-At options (or_home dir home) ext_dir) (λ cs a. give_up-Done caps options cs a)

  -- However the system answers, a process that gives its privileges up ends, or has done it in a
  -- legal order: its groups first, then the jail, its group and its user last, and nothing that
  -- needs root behind that or while its effective identity is the user's. It then is that user, in
  -- the jail if one was wanted, unless it wants capabilities that the system does not have for
  -- other users than root.
  pub change_credentials-Done :
      (user : Bytes) (dir ext_dir : Option Bytes) (caps : ℕ) (options : Options)
      → ((y.running_as_root ≡ false)
          × (vsf_secutil_change_credentials y user dir ext_dir caps options ≡ stop bug))
        ⊎ OrDies
            (Done caps options)
            (vsf_secutil_change_credentials y user dir ext_dir caps options)
  unfolding vsf_secutil_change_credentials
  change_credentials-Done user dir ext_dir caps options = elim (Bool-cases y.running_as_root) [
    | inr e ↦ inl (e, rw e refl)
    | inl e ↦ inr (rw e (credentials-Done (y.getpwnam user) dir ext_dir caps options))
  ]
