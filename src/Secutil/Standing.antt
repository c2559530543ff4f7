-- ===== src/Secutil/Standing.antt =====
-- What a process has given up after its calls, and which calls are legal then.
use dragonsunited_minecraft.Base.{Bool, true, false, not, ◌&&◌, List, [], ◌∷◌, ◌≡◌, ap}
use dragonsunited_minecraft.Secutil.{
  Step, initgroups, clear_supp_groups, setegid, seteuid, seteuid_numeric, setegid_numeric, chroot,
  setgid, setuid,
}

-- What a process has given up: its groups, its effective identity for the time being, the way out
-- of its jail, and its group and user for good.
pub record Standing : Type 0 where
  pub groups : Bool
  pub lowered : Bool
  pub jailed : Bool
  pub group_set : Bool
  pub user_set : Bool

abbrev pub at_start : Standing
at_start = record {
  groups = false;
  lowered = false;
  jailed = false;
  group_set = false;
  user_set = false;
}

unfoldable pub after : Step → Standing → Standing
after initgroups s = record s { groups = true }
after clear_supp_groups s = record s { groups = true }
after seteuid s = record s { lowered = true }
after seteuid_numeric s = record s { lowered = false }
after chroot s = record s { jailed = true }
after setgid s = record s { group_set = true }
after setuid s = record s { user_set = true }
after _ s = s

unfoldable pub standing : List Step → Standing
unfolding after
standing [] = at_start
standing (c ∷ cs) = after c (standing cs)

abbrev is_root : Standing → Bool
is_root s = not s.lowered && not s.user_set

-- The groups need their file, which is outside the jail, and root; so do the changes of an
-- identity and the jail. The user is given up last, after the groups.
unfoldable pub legal : Step → Standing → Bool
legal initgroups s = is_root s && not s.jailed
legal clear_supp_groups s = is_root s
legal setegid s = is_root s
legal seteuid s = is_root s
legal seteuid_numeric s = s.lowered && not s.user_set
legal setegid_numeric s = is_root s
legal chroot s = is_root s && s.groups
legal setgid s = is_root s && s.groups
legal setuid s = is_root s && (s.groups && s.group_set)
legal _ s = true

abbrev pub AllLegal : List Step → Type 0
AllLegal [] = Unit
AllLegal (c ∷ cs) = (legal c (standing cs) ≡ true) × AllLegal cs

abbrev pub At : Standing → List Step → Type 0
At s cs = (standing cs ≡ s) × AllLegal cs

pub step-At :
    (c : Step) (s : Standing) (cs : List Step)
    → legal c s ≡ true
    → At s cs
    → At (after c s) (c ∷ cs)
unfolding standing
step-At c s cs h (e, all) = (ap (after c) e, (rw e h, all))
