-- ===== src/Router.antt =====
-- agent_runtime/components/model_router.py: tier selection and the session budgets.
pub mod Budget
pub mod Spending
mod Tests
