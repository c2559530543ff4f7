-- ===== src/Prelogin/Tests.antt =====
-- The commands before the login at a concrete session.
use dragonsunited_minecraft.Base.{[], refl, arith, text}
use dragonsunited_minecraft.Postlogin.Tests.{settings, host, session}
use dragonsunited_minecraft.Prelogin.Decides.{Ready, Answers}
use dragonsunited_minecraft.Prelogin.User.{logins-Answers}
use dragonsunited_minecraft.Prelogin.{handle_user_command, handle_pass_command}
use dragonsunited_minecraft.Session.{Session, connected}
use dragonsunited_minecraft.Str.Text.{str_isempty}

abbrev before_login : Session
before_login = record session { user_str = []; ftp_arg_str = text "steve" }

before_login-Ready : Ready settings before_login
unfolding str_isempty
before_login-Ready = record {
  admitted = refl;
  unlogged = refl;
  short_users = omega arith;
  short_banned = omega arith;
  short_emails = omega arith;
  short_user = omega arith;
}

logins-Answers_example :
    Answers settings (text "steve") (handle_user_command settings (host connected) before_login)
    × Answers settings [] (handle_pass_command settings (host connected) before_login)
logins-Answers_example =
    logins-Answers settings (host connected) before_login before_login-Ready refl (omega arith)
