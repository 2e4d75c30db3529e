-- ===== src/Lib.antt =====
-- A model of the web console of Cadentra (web/src), which manages the nodes, scripts, tasks,
-- schedules and applications of a hub. The console is a single page written in TypeScript with
-- React: components keep a little state each and change it in handlers, talk to the hub by HTTP
-- through one client, and read what the hub has through cached queries.
--
-- The parts, with the files that model them:
--   Prelude      numbers, texts, lists and dictionaries as the program's language has them
--   Api          the objects of the hub, web/src/lib/api.ts
--   Session      the client with its token (web/src/lib/api.ts: Session/Client for setToken and getToken,
--                Session/Request for request and the methods of api) and the store of the signed-in user
--                (web/src/stores/auth-store.ts: Session/Store). The store's operations change the
--                client too; Session/Sync is about both
--                Session/Layout is the check of the session around every page
--                (web/src/components/layout/authenticated-layout.tsx), with its interleavings in
--                Session/Layout/Reach; Session/SignIn the form and signing out
--                (web/src/features/auth/sign-in/index.tsx, web/src/components/sign-out-dialog.tsx)
--   Navigation   web/src/lib/navigation.ts, where the console goes after signing in
--   Pages        getPageNumbers of web/src/lib/utils.ts
--   TableUrl     web/src/hooks/use-table-url-state.ts: TableUrl/Config for the parameters and their
--                defaults, and a file for each handler (Pagination, Globals, Columns, Range)
--   Transfers    web/src/features/transfers/index.tsx: Transfers/Form for the form, Transfers/Actions for
--                the actions of the list
--   Editors      web/src/features/editors/index.tsx (Schedule, Script, Group, Application, Artifact) and
--                TaskEditor of web/src/features/tasks/index.tsx (Task, with what the pages show of a
--                task in Task/Definition and Task/Shown). Editors/Draft is what they share,
--                Editors/Saving their saves, Editors/Application/Save the chain of requests of an application
--   DataTable    web/src/components/data-table: the faceted filter, the keys of the bulk actions and
--                the buttons of the pager (Pagination, over an interface of the table)
--   Shell        web/src/lib/cookies.ts (Cookies: how the text of all cookies is parted),
--                web/src/context (Preferences: theme, font, direction and layout, which share the
--                cookies; Theme: what is drawn), the sidebar of web/src/components/layout (Sidebar)
--                and the query client of web/src/main.tsx (Queries)
--   Catalog      web/src/features/catalog/index.tsx: the tasks of a node (Targets), beside what the hub
--                sends it in internal/hub/sync.go (Desired, compared in Agreement),
--                enrolling a node (Enrollment), its labels (Labels) and its applications
--                (NodeApplications), the users (Users), the settings beside internal/hub/api/api.go
--                (Settings, with their abstract view in Settings/Draft), the lists (Lists, with the rows of
--                scripts, schedules
--                and tasks in Lists/Rows) and the lengths of a node's runs (ExecutionRows)
--   Overview     the dashboard, web/src/features/overview/index.tsx: its requests (Load, with what it
--                shows of their answers in Load/Shown) and its figures (Figures, Health)
--   Executions   web/src/features/executions/index.tsx: the text of the log viewer (Logs), its search
--                (Logs/Viewer), the list (Search) and the page of one execution (Detail,
--                with its two queries and the viewer in Detail/LogsTab);
--                RunTask of web/src/features/tasks/index.tsx (RunTask)
--   Shared       how times and states are shown, web/src/features/shared/ui.tsx, and
--                web/src/lib/clipboard.ts
--   Tests        the theorems at concrete inputs
--
-- A component's state is a record, an input of a form an event, and a session of a user a list of
-- events, which `run` folds over `step`. An input that is shown only for some values of the form has
-- its condition in `shown`. What a query brings arrives by an event, at any time and again. Requests
-- are answered by a function; a missing answer is an exception, after which the hub may have carried
-- the request out, in part or not at all: Editors/Application/Failure and Catalog/Settings say what
-- is then stored. Elsewhere a request that fails is one that the hub has refused without an effect.
-- Where the order of answers, renders and inputs matters beyond that, the steps are an indexed data
-- type and the states those that it reaches.
--
-- All functions are total, by recursion on lists and numbers. Only `attempts` of Shell/Queries takes
-- fuel, a bound on the rounds of a query that keeps failing: five are enough, and
-- Shell/Queries/Failures is about any fuel from five on. Numbers are whole numbers without a bound:
-- a number of the program is a page, a count, a timeout or a number of milliseconds, far below 2^53.
-- `undefined`, `null` and a missing member are `none`; where the program takes the empty text for a
-- missing one, `truthy` says so. An object as a dictionary is an association list in the order of
-- first writing.
--
-- Code outside the repository is a parameter: `new URL`, `new Date`, the lower case of a text, the
-- clipboard and the writing of a cookie in the browser, `fetch`, and the answers of the hub. Not
-- modelled: the markup, translations and styles, the generated routes, the widgets, the floating
-- point text of the success rate, and the hub and the agent, but for what is named above.
pub mod Prelude
pub mod Api
pub mod Pages
pub mod TableUrl
pub mod DataTable
pub mod Shell
pub mod Session
pub mod Navigation
pub mod Transfers
pub mod Editors
pub mod Catalog
pub mod Overview
pub mod Executions
pub mod Shared
pub mod Tests
