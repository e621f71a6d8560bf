-- ===== src/Examples.antt =====
-- Small inputs on which the models run, and the theorems applied to them.
mod Data
mod Runs
mod Courses
mod Reviews
mod Programs
mod Keys
mod Drafts
mod Types
mod Services
mod Loaders
mod Publishers
mod Studio
mod Search
mod Salesforce
mod People
mod Creation
mod Comments
mod Analytics
