-- ===== src/Lib.antt =====
-- Verification of Moneygun, a Rails application whose pages are driven by Turbo and Stimulus. The
-- program modelled is the JavaScript of the repository (the controllers under
-- app/javascript/controllers, the confirmation dialog and the page shell beside them, and the service
-- worker of app/views/pwa), and of the Ruby side the core of an organization (who is in it, in which
-- role, and who owns it) and the way from an address to a session (codes by mail, second factors,
-- sessions, bans, single sign-on).
--
-- An organization is a record of its owner, its memberships and its invitations. An operation of the
-- models takes it to an `Outcome`: the organization that it saves, or the reason for which it is
-- refused. `run` of Members applies any list of them. Members.Rules is the abstract view, without rows
-- and validations, and Members.Simulation relates the two.
-- Joining puts the requests to join beside an organization, and uses its operations; Sso uses them
-- where a sign-in through an identity provider gives a membership, and Scim where an identity provider
-- asks for one.
--
-- Signing in is a `World`: the tables of users, links and sessions, and the cookies of one browser. The
-- controllers of SignIn use the tables through the operations of MagicLinks, TwoFactor and Sessions,
-- and `run` of SignIn.Steps takes any list of requests and of bans. Tokens is the interface of what can
-- be used once; MagicLinks and SamlRequests fill it. Account adds to a `World` what the Rails session
-- keeps, for what a user who is signed in may do, and Erasure puts the organizations beside it, for
-- the transaction that closes an account; Closure is the end of an organization, and what it means
-- for the account of the owner. SignIn.Rows carries any property of the row of a user
-- through the events; the bans and the closed accounts both use it.
--
-- A Stimulus controller is an object that lives between `connect()` and `disconnect()` and reacts to
-- events of its element, of the document and of timers. Its model is a record of the fields of the
-- controller and of the parts of the document that it reads and writes, with one function for each
-- method, named after it in snake case. Where a method awaits something, its two halves are two
-- functions, and a field says that the second one is due. `step` runs one event and `run` a list of
-- them, so a theorem about `run` holds for every order of events. Controllers do not call one another;
-- they meet in the document, and LocalSave uses the `debounce` of Timing.
--
-- The files, each with its proofs and examples in the folder of its name:
--   Members         app/models/membership.rb, invitation.rb, access_request.rb,
--                   concerns/organization/transfer.rb, and app/policies/membership_policy.rb;
--                   Members.Access says what lets a user in, and Members.Inviting is the making of
--                   invitations with organizations/invitations_controller.rb, Members.Limits their
--                   limit in an hour
--   Joining         app/models/membership_request.rb, and the requests of access_request.rb
--   SignIn          app/controllers/sessions_controller.rb, sessions/magic_links_controller.rb,
--                   sessions/two_factor_controller.rb, concerns/authentication.rb, and
--                   app/models/concerns/user/banning.rb
--   Sso             app/models/sso_domain.rb and sso_connection.rb, on top of Members and SignIn
--   Closure         app/models/organization.rb, concerns/organization/billing.rb,
--                   app/controllers/organizations_controller.rb (destroy) and
--                   app/jobs/organization/purge_job.rb
--   Scim            app/controllers/scim/users_controller.rb, with the setters of
--                   app/models/concerns/membership/scim_provisionable.rb
--   Erasure         app/models/concerns/user/redaction.rb and `undeletable_reasons` of
--                   app/models/user.rb, on top of SignIn and Members.Leaving
--   Account         app/controllers/concerns/sudo.rb, and users/sudo_controller.rb,
--                   users/email_changes_controller.rb and users/two_factor_controller.rb
--   MagicLinks      app/models/magic_link.rb, magic_link/code.rb, and `send_magic_link` of
--                   app/models/concerns/user/authentication.rb
--   TwoFactor       app/models/concerns/user/two_factor.rb
--   Sessions        app/models/session.rb
--   SamlRequests    app/models/saml_auth_request.rb
--   Tokens          what magic links and SAML requests have in common
--   TurboConfirm    app/javascript/turbo_confirm.js, with the markup of
--                   app/views/shared/_turbo_confirm_dialog.html.erb
--   Timing          app/javascript/helpers/timing_helpers.js
--   LocalSave       controllers/local_save_controller.js
--   Dropdown        controllers/dropdown_controller.js
--   Tooltip         controllers/tooltip_controller.js
--   Modal           controllers/dialog_controller.js
--   UnsavedChanges  controllers/unsaved_changes_controller.js
--   PwaInstall      controllers/pwa_install_controller.js
--   Dropzone        controllers/dropzone_controller.js
--   ServiceWorker   app/views/pwa/service-worker.js
--   PageTitle       app/javascript/application.js
--   Visitable       controllers/visitable_controller.js and click_controller.js
--   Sharing         controllers/share_controller.js
--   Clipboard       controllers/clipboard_controller.js
--   Autogrow        controllers/simple_form/autogrow_controller.js
--   Counter         controllers/simple_form/character_counter_controller.js
--   Scrolling       controllers/scroll_bottom_controller.js
--   Transient       controllers/flash_controller.js, auto_remove_controller.js,
--                   element_remove_controller.js and debounce_controller.js
--   LocalTime       controllers/local_time_controller.js and badge_controller.js
--   Lightbox        controllers/lightbox_controller.js
--   Registry        controllers/index.js
--   Widgets         controllers/autonumeric_controller.js, focus_controller.js, reset_form_controller.js
--   Base            shared names, Boolean tests, lists, and strings as lists of code units
--
-- Conventions. A string is a list of code units (`Text`), and an empty one is falsy as in the
-- source. A value that may be undefined or null is an `Option`. Times are milliseconds in the
-- JavaScript and seconds in the Ruby, positions are whole pixels, all unbounded natural numbers;
-- where the source subtracts numbers that could become negative, the comparison is written without
-- subtraction. Two loops take fuel: a step of the growing text area adds at least one pixel up to
-- the maximal height, so fuel above that height is enough; the loop that draws the code of a magic
-- link ends at the first code that is free, so fuel above the number of that round is enough. A
-- table is a list, and a unique index of it is a hypothesis where a theorem needs it.
--
-- What is not in the repository enters as parameters or events: `removeFile` of Dropzone, the
-- callbacks of DirectUpload, the positions of @floating-ui, `register` of Stimulus and its loader,
-- the layout, the network, the cache, the parsing of dates, URLs and messages; how Ruby compares two
-- emails without regard to case, `strip` and `downcase`, and what the domain name system says; the
-- random numbers and tokens, and the one-time passwords of the package rotp; for Scim the package
-- scimitar, as the order in which it calls the setters and saves.
-- So does what is in the repository and belongs to a part that a module does not hold: for Members
-- which users are redacted; for SignIn, Account and Scim the validations of an address and of a new
-- user (app/models/user.rb and concerns/user/authentication.rb), and for SignIn the addresses for which
-- single sign-on is enforced (`enforced_for_email` of app/models/sso_connection.rb); for Sso the format
-- of a domain; for Erasure `retained_footprint?` of app/models/user.rb and the address of a redacted
-- user (app/models/concerns/user/redaction.rb).
--
-- Not modelled: the rest of the Ruby side (billing, the protocols of identity providers, API tokens,
-- the rate limits but that of invitations, notifications, the audit log), the bundled daisyUI and the packages under
-- vendor, and the start of Stimulus.
pub mod Base
pub mod Tokens
pub mod Members
pub mod SignIn
pub mod Joining
pub mod Sso
pub mod Closure
pub mod Scim
pub mod Erasure
pub mod Account
pub mod MagicLinks
pub mod TwoFactor
pub mod Sessions
pub mod SamlRequests
pub mod TurboConfirm
pub mod Timing
pub mod LocalSave
pub mod Dropdown
pub mod Tooltip
pub mod Modal
pub mod UnsavedChanges
pub mod PwaInstall
pub mod Dropzone
pub mod ServiceWorker
pub mod PageTitle
pub mod Visitable
pub mod Sharing
pub mod Clipboard
pub mod Autogrow
pub mod Counter
pub mod Scrolling
pub mod Transient
pub mod LocalTime
pub mod Lightbox
pub mod Registry
pub mod Widgets
