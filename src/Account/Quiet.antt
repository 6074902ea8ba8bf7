-- ===== src/Account/Quiet.antt =====
-- The actions that leave the rows of all users as they are.
use moneygun.Base.{ℕ, ◌≡◌, refl, Bool, Option, none, some, Text}
use moneygun.SignIn.{User}
use moneygun.Account.{Desk, reset_session}
use moneygun.Account.Steps.{
  with_links, send_sudo_code, ask_sudo, resend_sudo, ask_email, open_factor,
}
use moneygun.Account.Guards.{if_has}

pub ask-users :
    (now : ℕ) (code : Text) (x : User) (d : Desk)
    → (ask_sudo now code x d).world.users ≡ d.world.users
unfolding ask_sudo send_sudo_code with_links
ask-users now code x d = if_has (λ d'. d'.world.users ≡ d.world.users) _ d _ (λ b. refl) (λ b. refl)

pub resend-users :
    (now : ℕ) (code : Text) (x : User) (d : Desk)
    → (resend_sudo now code x d).world.users ≡ d.world.users
unfolding resend_sudo send_sudo_code with_links
resend-users now code x d =
    if_has (λ d'. d'.world.users ≡ d.world.users) _ d _ (λ b. refl) (λ b. refl)

pub ask_email-users :
    (acceptable : Text → Bool) (fits : ℕ → Option Text → Text → Bool) (now : ℕ) (e code : Text)
    (x : User) (d : Desk)
    → (ask_email acceptable fits now e code x d).world.users ≡ d.world.users
unfolding ask_email with_links
ask_email-users acceptable fits now e code x d =
    if_has (λ d'. d'.world.users ≡ d.world.users) _ _ d (λ b. refl) (λ b. refl)

pub open-users :
    (now : ℕ) (secret : Text) (x : User) (d : Desk)
    → (open_factor now secret x d).world.users ≡ d.world.users
unfolding open_factor
open-users now secret x d =
    if_has (λ d'. d'.world.users ≡ d.world.users) _ _ d (λ b. refl) (λ b. refl)

pub reset-users : (o : Option User) (d : Desk) → (reset_session o d).world.users ≡ d.world.users
unfolding reset_session
reset-users none d = refl
reset-users (some x) d = refl
