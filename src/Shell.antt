-- ===== src/Shell.antt =====
-- What stands around every page of the console: web/src/lib/cookies.ts, and the theme that
-- is kept in a cookie, web/src/context/theme-provider.tsx.
pub mod Cookies
pub mod Theme
pub mod Preferences
pub mod Sidebar
pub mod Queries
