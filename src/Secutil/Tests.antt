-- ===== src/Secutil/Tests.antt =====
-- A system that grants everything, and a user in an empty jail.
use dragonsunited_minecraft.Base.{none, some, true, false, ◌≡◌, ◌⊎◌, text}
use dragonsunited_minecraft.Privops.Sockets.Allowed.{OrDies}
use dragonsunited_minecraft.Run.{stop, bug}
use dragonsunited_minecraft.Secutil.{Options, System, vsf_secutil_change_credentials}
use dragonsunited_minecraft.Secutil.Order.{Done, change_credentials-Done}

abbrev granting : System
granting = record {
  running_as_root = true;
  getpwnam = λ user. some (text "/");
  succeeds = λ cs c. true;
  has_capabilities = true;
  has_capabilities_as_non_root = true;
  write_access = λ cs. false;
}

abbrev jailed_options : Options
jailed_options = record {
  chroot = true;
  use_groups = false;
  change_euid = true;
  no_fds = true;
  no_procs = true;
}

change_credentials-Done_example :
    ((granting.running_as_root ≡ false)
      × (vsf_secutil_change_credentials granting
            (text "nobody")
            (some (text "/usr/share/empty"))
            none
            0
            jailed_options
          ≡ stop bug))
    ⊎ OrDies (Done granting 0 jailed_options) (
        vsf_secutil_change_credentials granting
          (text "nobody")
          (some (text "/usr/share/empty"))
          none
          0
          jailed_options)
change_credentials-Done_example =
    change_credentials-Done granting (text "nobody") (some (text "/usr/share/empty")) none 0
      jailed_options
