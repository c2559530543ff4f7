-- ===== src/Secutil.antt =====
-- secutil.c: how a process gives its privileges up. The system is a parameter; the calls that a
-- process has made are a list, the newest first, and a call that fails ends the process, but for
-- those that change the directory.
pub mod Standing
pub mod Order
mod Tests
use dragonsunited_minecraft.Base.{
  ℕ, Bool, true, false, not, ◌&&◌, List, [], ◌∷◌, Option, none, some, ◌==◌, if◌then◌else◌, Bytes,
}
use dragonsunited_minecraft.Run.{Run, ok, stop, die, ◌>>=◌, ◌>>◌, bug_if, die_if}
use dragonsunited_minecraft.Str.Text.{str_isempty}

-- `options`, bit by bit.
pub record Options : Type 0 where
  pub chroot : Bool
  pub use_groups : Bool
  pub change_euid : Bool
  pub no_fds : Bool
  pub no_procs : Bool

pub data Step : Type 0 where
  initgroups clear_supp_groups : Step
  -- to the user's identity and back
  setegid seteuid seteuid_numeric setegid_numeric : Step
  chdir : Bytes → Step
  chroot : Step
  set_no_fds set_no_procs : Step
  adopt_capabilities : ℕ → Step
  keep_capabilities : Step
  setgid setuid : Step

pub record System : Type 0 where
  pub running_as_root : Bool
  -- the home directory of a user
  pub getpwnam : Bytes → Option Bytes
  pub succeeds : List Step → Step → Bool
  pub has_capabilities : Bool
  pub has_capabilities_as_non_root : Bool
  -- "/" can be written
  pub write_access : List Step → Bool

abbrev pub is_given : Option Bytes → Bool
is_given none = false
is_given (some d) = not (str_isempty d)

abbrev pub or_home : Option Bytes → Bytes → Bytes
or_home none home = home
or_home (some d) home = if str_isempty d then home else d

module _ (y : System) where
  abbrev pub perform : Step → List Step → Run (List Step)
  perform c cs = if y.succeeds cs c then ok (c ∷ cs) else stop die

  abbrev pub perform_if : Bool → Step → List Step → Run (List Step)
  perform_if b c cs = if b then perform c cs else ok cs

  unfoldable pub lower : Bool → List Step → Run (List Step)
  lower change_euid cs = do
    cs' ← perform_if change_euid setegid cs
    perform_if change_euid seteuid cs'

  unfoldable pub raise : Bool → List Step → Run (List Step)
  raise change_euid cs = do
    cs' ← perform_if change_euid seteuid_numeric cs
    perform_if change_euid setegid_numeric cs'

  -- A directory that cannot be entered besides does not matter outside a jail.
  unfoldable pub enter_extra : Bool → Option Bytes → List Step → Run (List Step)
  enter_extra jail none cs = ok cs
  enter_extra jail (some d) cs =
      if str_isempty d
      then ok cs
      else (do die_if (not (y.succeeds cs (chdir d)) && jail); ok (chdir d ∷ cs))

  -- The place of the process, and its jail.
  unfoldable pub enter : Options → Bytes → Option Bytes → List Step → Run (List Step)
  unfolding lower raise enter_extra
  enter options dir ext_dir cs = do
    cs1 ← perform (if options.use_groups then initgroups else clear_supp_groups) cs
    cs2 ← lower options.change_euid cs1
    cs3 ← perform (chdir dir) cs2
    cs4 ← enter_extra options.chroot ext_dir cs3
    cs5 ← raise options.change_euid cs4
    perform_if options.chroot chroot cs5

  -- The identity of the user for good, with capabilities if there are any.
  unfoldable pub become : Bool → ℕ → Options → List Step → Run (List Step)
  become wants caps options cs = do
    cs1 ← perform_if wants keep_capabilities cs
    cs2 ← perform setgid cs1
    cs3 ← perform setuid cs2
    cs4 ← perform_if wants (adopt_capabilities caps) cs3
    cs5 ← perform_if options.no_procs set_no_procs cs4
    die_if (options.chroot && y.write_access cs5)
    ok cs5

  unfoldable pub give_up : ℕ → Options → List Step → Run (List Step)
  unfolding become
  give_up caps options cs0 = do
    cs ← perform_if options.no_fds set_no_fds cs0
    let wants = not (caps == 0)
    if wants && not y.has_capabilities
        then ok cs
        else if wants && not y.has_capabilities_as_non_root
        then perform (adopt_capabilities caps) cs
        else become wants caps options cs

  unfoldable pub credentials :
      Option Bytes → Option Bytes → Option Bytes → ℕ → Options → Run (List Step)
  unfolding enter give_up
  credentials none dir ext_dir caps options = stop die
  credentials (some home) dir ext_dir caps options = do
    cs ← enter options (or_home dir home) ext_dir []
    give_up caps options cs

  unfoldable pub vsf_secutil_change_credentials :
      Bytes → Option Bytes → Option Bytes → ℕ → Options → Run (List Step)
  unfolding credentials
  vsf_secutil_change_credentials user dir ext_dir caps options = do
    bug_if (not y.running_as_root)
    credentials (y.getpwnam user) dir ext_dir caps options
