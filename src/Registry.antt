-- ===== src/Registry.antt =====
-- app/javascript/controllers/index.js: which class stands behind a controller's name. Stimulus's
-- `register` and the loader of @hotwired/stimulus-loading are parameters. The loader imports its
-- modules asynchronously, so its registrations come after those that the file makes itself.
pub mod Names
mod Examples
use moneygun.Base.{
  Bool, true, false, List, [], ◌∷◌, Option, none, some, Text, codes, text_eq, if◌then◌else◌,
}

-- The class of a controller: one of the application's, by its file, or one of a package.
pub data Class : Type 0 where
  from_app from_package : Text → Class

abbrev pub Registry : Type 0
Registry = List (Text × Class)

-- The class that is registered for a name; the newest registration is the first of the list.
pub lookup : Text → Registry → Option Class
lookup name [] = none
lookup name ((n, c) ∷ rest) = if text_eq n name then some c else lookup name rest

module _ (register eager_register : Text → Class → Registry → Registry) where
  -- The two calls of `application.register`.
  pub registered : Registry → Registry
  registered r =
      register (codes "auto-submit") (from_package (codes "auto-submit"))
        (register (codes "clipboard") (from_package (codes "clipboard")) r)

  -- `eagerLoadControllersFrom`, once the imports are there, in whatever order they came.
  pub loaded : List (Text × Class) → Registry → Registry
  loaded [] r = r
  loaded ((name, c) ∷ rest) r = loaded rest (eager_register name c r)

  -- The whole file, on an application with no controllers.
  pub start : List (Text × Class) → Registry
  unfolding registered loaded
  start imports = loaded imports (registered [])
