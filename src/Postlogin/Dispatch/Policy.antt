-- ===== src/Postlogin/Dispatch/Policy.antt =====
-- Which handlers a session reaches, against what the settings permit it.
use dragonsunited_minecraft.Base.{Bool, true, not, ◌&&◌, ◌||◌, List, [], ◌∷◌, ◌≡◌}
use dragonsunited_minecraft.Session.{Tunables, Session}
use dragonsunited_minecraft.Postlogin.Dispatch

-- What the settings say of a session: an anonymous one needs a permission for each kind of change.
abbrev pub may_write : Tunables → Session → Bool → Bool
may_write t s anon = t.write_enable && (anon || not s.is_anonymous)

unfoldable pub permitted : Tunables → Session → Dispatch.Handler → Bool
permitted t s Dispatch.stor = may_write t s t.anon_upload_enable
permitted t s Dispatch.stou = may_write t s t.anon_upload_enable
permitted t s Dispatch.appe = may_write t s t.anon_other_write_enable
permitted t s Dispatch.mkd = may_write t s t.anon_mkdir_write_enable
permitted t s Dispatch.rmd = may_write t s t.anon_other_write_enable
permitted t s Dispatch.dele = may_write t s t.anon_other_write_enable
permitted t s Dispatch.rnfr = may_write t s t.anon_other_write_enable
permitted t s Dispatch.rnto = may_write t s t.anon_other_write_enable
permitted t s Dispatch.site = not s.is_anonymous
permitted t s Dispatch.retr = t.download_enable
permitted t s Dispatch.list = t.dirlist_enable
permitted t s Dispatch.nlst = t.dirlist_enable
permitted t s Dispatch.stat_file = t.dirlist_enable
permitted t s Dispatch.pasv = t.pasv_enable && not s.epsv_all
permitted t s Dispatch.epsv = t.pasv_enable
permitted t s Dispatch.port = t.port_enable && not s.epsv_all
permitted t s Dispatch.eprt = t.port_enable
permitted t s Dispatch.pbsz = t.ssl_enable
permitted t s Dispatch.prot = t.ssl_enable
permitted t s _ = true

-- Rows whose test leads only to a handler that is permitted.
abbrev AllPermitted : Tunables → Session → List (Bool × Dispatch.Handler) → Type 0
AllPermitted t s [] = Unit {0}
AllPermitted t s ((b, x) ∷ rows) = (b ≡ true → permitted t s x ≡ true) × AllPermitted t s rows

infixr 3 ◌&◌
abbrev ◌&◌ : {A B : Type 0} → A → B → A × B
p & q = (p, q)
